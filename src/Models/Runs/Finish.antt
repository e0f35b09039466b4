-- ===== src/Models/Runs/Finish.antt =====
-- The rules for `One`, `FindUser` and `All` with the referrer loaded: what they return are objects
-- with the columns of the rows that the database gave, and with a relations struct.
use mathlib.Core.Path.{subst}
use users_api.Base.{refl, ◌∙◌, String, none, some, List, [], ◌∷◌, ◌≡◌, true, All, nat_eq}
use users_api.Models.Runs.Reasons.{
  loads, ReferrersFail, OneFails, row_fails, referrer_fails, AllFails, rows_fails, referrers_fail,
}
use users_api.Go.Result.{done}
use users_api.Go.Exec.{Exec, pure, wrapping, ◌>>=◌, ◌>>◌}
use users_api.Models.User.{Row, UserPtr}
use users_api.Models.Where.{QueryMod, load, referring_user, referring_user_users}
use users_api.Models.Sql.{Conn, Query}
use users_api.Models.World.{UserHook, World, new_user, read_db}
use users_api.Models.Hooks.{do_after_select_hooks}
use users_api.Models.Env.{Env}
use users_api.Models.Load.{
  new_users, load_referring_user, load_referring_user_slice, eager_load, eager_load_slice,
}
use users_api.Models.Select.{
  bind_object, bind_objects, one, find_user, find_query, all_users, run_unless_empty,
}
use users_api.Models.Runs.{
  reason-Runs, IsWf, Runs, HasR, HasColumns, HasR-Extends, HasColumns-Extends, bind-Runs,
}
use users_api.Models.Runs.Steps.{pure-Runs, attempt-Runs, wrapping-Runs, weaken-Runs}
use users_api.Models.Runs.Writing.{new_user-Runs}
use users_api.Models.Runs.Related.{Hold, Hold-Extends, HasR-All, NoSelectHooks, new_users-Runs}
use users_api.Models.Runs.Referrers.{hooks-Runs, load_referring_user-Runs, load_slice-Runs}

-- Whether a query loads the referrer, if it loads nothing else.
abbrev pub OnlyReferrer : List QueryMod → Type 0
OnlyReferrer [] = Unit
OnlyReferrer (load referring_user_users ∷ mods) = ⊥
OnlyReferrer (_ ∷ mods) = OnlyReferrer mods

-- The object that a query for one row returned.
pub record Found (E : Env) (conn : Conn E.sql.Tx) (q : Query) (w : World E.sql) (p : UserPtr)
    (v : World E.sql) : Type 0 where
  pub row : Row
  pub bound : E.sql.bind_one conn q w.db ≡ done row
  pub columns : HasColumns v.heap p row
  pub relations : loads q.mods ≡ true → HasR v.heap p

module _ (E : Env) (quiet : NoSelectHooks E) where
  open E use {sql as S}

  eager_load-Runs :
      (w : World S)
      → IsWf w.heap
      → (conn : Conn S.Tx) (mods : List QueryMod) (p : UserPtr) (row : Row) → OnlyReferrer mods
      → HasColumns w.heap p row
      → Runs
          ((loads mods ≡ true) × ReferrersFail E conn (row ∷ []) w.db)
          w
          (eager_load E conn mods p w)
          (λ _ v. loads mods ≡ true → HasR v.heap p)
  unfolding eager_load
  eager_load-Runs w wf conn [] p row o c = pure-Runs tt wf (λ z. cc)
  eager_load-Runs w wf conn (load referring_user_users ∷ mods) p row o c = absurd o
  eager_load-Runs w wf conn (load referring_user ∷ mods) p row o c =
      bind-Runs (load_referring_user E conn p) _
        (reason-Runs (load_referring_user E conn p) (λ f. (refl, f))
          (load_referring_user-Runs E quiet w wf conn p row c))
        λ _ v wfv xv db h.
          weaken-Runs (eager_load E conn mods p)
            (reason-Runs (eager_load E conn mods p)
              (λ f. (refl, subst (ReferrersFail E conn (row ∷ [])) db f.1))
              (eager_load-Runs v wfv conn mods p row o (HasColumns-Extends p xv c)))
            (λ _ y xy _ _. HasR-Extends p xy h)
  eager_load-Runs w wf conn (_ ∷ mods) p row o c = eager_load-Runs w wf conn mods p row o c

  pub bind_object-Runs :
      (w : World S)
      → IsWf w.heap
      → (conn : Conn S.Tx) (q : Query) → OnlyReferrer q.mods
      → Runs (OneFails E conn q w.db) w (bind_object E conn q w) (Found E conn q w)
  unfolding bind_object read_db
  bind_object-Runs w wf conn q o =
      bind-Runs {Q = λ row _. S.bind_one conn q w.db ≡ done row} (read_db (S.bind_one conn q)) _
        (attempt-Runs (S.bind_one conn q w.db) wf (λ _ e. e) (λ e. row_fails e))
        λ row v wfv _ dv e.
          bind-Runs (new_user (record { columns = row; r = none })) _ (new_user-Runs v wfv row)
            λ p u wfu xu du c.
              bind-Runs (eager_load E conn q.mods p) _
                (reason-Runs (eager_load E conn q.mods p)
                  (λ f.
                    referrer_fails row e f.0
                      (subst (ReferrersFail E conn (row ∷ [])) (du ∙ dv) f.1))
                  (eager_load-Runs u wfu conn q.mods p row o c))
                λ _ y wfy xy _ r. pure-Runs p wfy (record {
                  row = row;
                  bound = e;
                  columns = HasColumns-Extends p xy c;
                  relations = r;
                })

  hooked-Runs :
      {F : Type 0}
      → (w : World S) (conn : Conn S.Tx) (q : Query) (m : Exec (World S) UserPtr)
      → Runs F w (m w) (Found E conn q w)
      → Runs F w
          ((m >>= λ o. (do_after_select_hooks E.ctx E.hooks conn o >> pure o)) w)
          (Found E conn q w)
  hooked-Runs w conn q m h = bind-Runs m _ h λ p v wfv _ _ f.
      bind-Runs (do_after_select_hooks E.ctx E.hooks conn p) _ (hooks-Runs E quiet v wfv conn p)
        λ _ y wfy xy _ _. pure-Runs p wfy (record {
          row = f.row;
          bound = f.bound;
          columns = HasColumns-Extends p xy f.columns;
          relations = λ z. HasR-Extends p xy (f.relations z);
        })

  -- `One` of a query that loads no relation but the referrer, where no hook is registered, never
  -- panics, returns an error only if its query limited to one row fails (one that finds no row
  -- included) or, for the row that this query finds, the query for the referrer does, leaves the
  -- database and the columns of all objects as they were, and keeps the heap well-formed; the
  -- object that it returns has the columns of the row that the database gave for
  -- the query limited to one row, and a relations struct if the query loads the referrer.
  pub one-Runs :
      (w : World S)
      → IsWf w.heap
      → (conn : Conn S.Tx) (q : Query) → OnlyReferrer q.mods
      → Runs
          (OneFails E conn (record q { limit = some 1 }) w.db)
          w
          (one E conn q w)
          (Found E conn (record q { limit = some 1 }) w)
  unfolding one
  one-Runs w wf conn q o =
      hooked-Runs w conn (record q { limit = some 1 })
        (wrapping _ (bind_object E conn (record q { limit = some 1 })))
        (wrapping-Runs _ (bind_object E conn (record q { limit = some 1 }))
          (bind_object-Runs w wf conn _ o))

  pub find_user-Runs :
      (w : World S)
      → IsWf w.heap
      → (conn : Conn S.Tx) (user_id : String)
      → Runs
          (OneFails E conn (find_query user_id) w.db)
          w
          (find_user E conn user_id w)
          (Found E conn (find_query user_id) w)
  unfolding find_user
  find_user-Runs w wf conn user_id =
      hooked-Runs w conn (find_query user_id) (wrapping _ (bind_object E conn (find_query user_id)))
        (wrapping-Runs _ (bind_object E conn (find_query user_id))
          (bind_object-Runs w wf conn _ tt))

  -- The objects that a query for all rows returned.
  pub record AllFound (conn : Conn S.Tx) (q : Query) (w : World S) (ps : List UserPtr) (v : World S)
      : Type 0 where
    pub rows : List Row
    pub bound : S.bind_all conn q w.db ≡ done rows
    pub columns : Hold v.heap ps rows
    pub relations : loads q.mods ≡ true → All (HasR v.heap) ps

  eager_load_slice-Runs :
      (w : World S)
      → IsWf w.heap
      → (conn : Conn S.Tx) (mods : List QueryMod) (ps : List UserPtr) (rows : List Row)
      → OnlyReferrer mods
      → Hold w.heap ps rows
      → Runs
          ((loads mods ≡ true) × ReferrersFail E conn rows w.db)
          w
          (eager_load_slice E conn mods ps w)
          (λ _ v. loads mods ≡ true → All (HasR v.heap) ps)
  unfolding eager_load_slice
  eager_load_slice-Runs w wf conn [] ps rows o g = pure-Runs tt wf (λ z. cc)
  eager_load_slice-Runs w wf conn (load referring_user_users ∷ mods) ps rows o g = absurd o
  eager_load_slice-Runs w wf conn (load referring_user ∷ mods) ps rows o g =
      bind-Runs (load_referring_user_slice E conn ps) _
        (reason-Runs (load_referring_user_slice E conn ps) (λ f. (refl, f))
          (load_slice-Runs E quiet w wf conn ps rows g))
        λ _ v wfv xv db h.
          weaken-Runs (eager_load_slice E conn mods ps)
            (reason-Runs (eager_load_slice E conn mods ps)
              (λ f. (refl, subst (ReferrersFail E conn rows) db f.1))
              (eager_load_slice-Runs v wfv conn mods ps rows o (Hold-Extends ps rows xv g)))
            (λ _ y xy _ _. HasR-All xy ps h)
  eager_load_slice-Runs w wf conn (_ ∷ mods) ps rows o g =
      eager_load_slice-Runs w wf conn mods ps rows o g

  bind_objects-Runs :
      (w : World S)
      → IsWf w.heap
      → (conn : Conn S.Tx) (q : Query) → OnlyReferrer q.mods
      → Runs (AllFails E conn q w.db) w (bind_objects E conn q w) (AllFound conn q w)
  unfolding bind_objects read_db
  bind_objects-Runs w wf conn q o =
      bind-Runs {Q = λ rows _. S.bind_all conn q w.db ≡ done rows} (read_db (S.bind_all conn q)) _
        (attempt-Runs (S.bind_all conn q w.db) wf (λ _ e. e) (λ e. rows_fails e))
        λ rows v wfv _ dv e.
          bind-Runs (new_users rows) _ (new_users-Runs v wfv rows) λ ps u wfu xu du c.
            bind-Runs (eager_load_slice E conn q.mods ps) _
              (reason-Runs (eager_load_slice E conn q.mods ps)
                (λ f. referrers_fail rows e f.0 (subst (ReferrersFail E conn rows) (du ∙ dv) f.1))
                (eager_load_slice-Runs u wfu conn q.mods ps rows o c))
              λ _ y wfy xy _ r. pure-Runs ps wfy (record {
                rows = rows;
                bound = e;
                columns = Hold-Extends ps rows xy c;
                relations = r;
              })

  no_hooks-Runs :
      {F : Type 0}
      → (w : World S) → IsWf w.heap
      → (conn : Conn S.Tx) (ps : List UserPtr) (hs : List (UserHook S)) → hs ≡ []
      → Runs F w (run_unless_empty E hs conn ps w) (λ _ _. Unit)
  unfolding run_unless_empty
  no_hooks-Runs w wf conn ps [] e = pure-Runs tt wf tt
  no_hooks-Runs w wf conn ps (h ∷ hs) e = cc

  -- `All` of a query that loads no relation but the referrer, where no hook is registered, never
  -- panics, returns an error only if its query fails or, for the rows that this query finds, the
  -- query for their referrers does, leaves the database and the columns of all objects as they
  -- were, and keeps the heap well-formed; the objects that it returns have, one for one and in
  -- order, the columns of the rows that the database gave, and each a relations struct if the
  -- query loads the referrer.
  pub all_users-Runs :
      (w : World S)
      → IsWf w.heap
      → (conn : Conn S.Tx) (q : Query) → OnlyReferrer q.mods
      → Runs (AllFails E conn q w.db) w (all_users E conn q w) (AllFound conn q w)
  unfolding all_users
  all_users-Runs w wf conn q o =
      bind-Runs (wrapping _ (bind_objects E conn q)) _
        (wrapping-Runs _ (bind_objects E conn q) (bind_objects-Runs w wf conn q o))
        λ ps v wfv _ _ f.
          bind-Runs (run_unless_empty E E.hooks.after_select_hooks conn ps) _
            (no_hooks-Runs v wfv conn ps E.hooks.after_select_hooks quiet)
            λ _ y wfy xy _ _. pure-Runs ps wfy (record {
              rows = f.rows;
              bound = f.bound;
              columns = Hold-Extends ps f.rows xy f.columns;
              relations = λ z. HasR-All xy ps (f.relations z);
            })
