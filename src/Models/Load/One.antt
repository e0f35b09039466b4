-- ===== src/Models/Load/One.antt =====
-- models/users.go: `One` of a query that loads the referrer leaves only links that the keys name.
use users_api.Base.{◌<◌, none, some, List, [], ◌∷◌, arith}
use users_api.Go.Result.{Result, ok, err, panic}
use users_api.Go.Exec.{wrapping}
use users_api.Models.User.{UserPtr}
use users_api.Models.Where.{QueryMod, load, referring_user, referring_user_users}
use users_api.Models.Sql.{Conn, Query}
use users_api.Models.World.{World, new_user, read_db}
use users_api.Models.Hooks.{do_after_select_hooks}
use users_api.Models.Env.{Env}
use users_api.Models.Load.{load_referring_user, eager_load}
use users_api.Models.Load.Linked.{IsLinked}
use users_api.Models.Load.Keeps.{
  Keeps, pure-Keeps, attempt-Keeps, wrapping-Keeps, bind-Keeps, new_user-Keeps,
}
use users_api.Models.Load.Fetching.{IsFaithful}
use users_api.Models.Load.Referrers.{load_referring_user-Keeps}
use users_api.Models.Select.{bind_object, one}
use users_api.Models.Runs.{IsWf, Runs}
use users_api.Models.Runs.Related.{NoSelectHooks, hooks-pure}
use users_api.Models.Runs.Finish.{OnlyReferrer, Found, one-Runs}

module _ (E : Env) (quiet : NoSelectHooks E) (faithful : IsFaithful E) where
  open E use {sql as S, library as L}

  eager_load-Keeps :
      (w : World S)
      → IsLinked L w.heap
      → (conn : Conn S.Tx) (mods : List QueryMod) (p : UserPtr) → OnlyReferrer mods
      → p < w.heap.next
      → Keeps L w (eager_load E conn mods p w) (λ _ _. Unit)
  unfolding eager_load
  eager_load-Keeps w good conn [] p o lt = pure-Keeps L tt good tt
  eager_load-Keeps w good conn (load referring_user_users ∷ mods) p o lt = absurd o
  eager_load-Keeps w good conn (load referring_user ∷ mods) p o lt =
      bind-Keeps L (load_referring_user E conn p) _
        (load_referring_user-Keeps E quiet faithful w good conn p lt)
        λ _ v goodv grows _. eager_load-Keeps v goodv conn mods p o (omega (arith, lt, grows))
  eager_load-Keeps w good conn (_ ∷ mods) p o lt = eager_load-Keeps w good conn mods p o lt

  bind_object-Keeps :
      (w : World S)
      → IsLinked L w.heap
      → (conn : Conn S.Tx) (q : Query) → OnlyReferrer q.mods
      → Keeps L w (bind_object E conn q w) (λ _ _. Unit)
  unfolding bind_object read_db
  bind_object-Keeps w good conn q o =
      bind-Keeps L (read_db (S.bind_one conn q)) _ (attempt-Keeps L w good (S.bind_one conn q w.db))
        λ row v goodv _ _.
          bind-Keeps L (new_user (record { columns = row; r = none })) _
            (new_user-Keeps L v goodv row)
            λ p x goodx _ (here, _).
              bind-Keeps L (eager_load E conn q.mods p) _
                (eager_load-Keeps x goodx conn q.mods p o here.below)
                λ _ y goody _ _. pure-Keeps L p goody tt

  -- `One`, with what Models/Runs says of the object that it returns.
  pub one-Keeps :
      (w : World S)
      → IsLinked L w.heap
      → IsWf w.heap
      → (conn : Conn S.Tx) (q : Query) → OnlyReferrer q.mods
      → Keeps L w (one E conn q w) (Found E conn (record q { limit = some 1 }) w)
  unfolding one
  one-Keeps w good wf conn q o =
      both (one E conn q w)
        (bind-Keeps L (wrapping _ (bind_object E conn (record q { limit = some 1 }))) _
          (wrapping-Keeps L _ (bind_object E conn (record q { limit = some 1 }))
            (bind_object-Keeps w good conn (record q { limit = some 1 }) o))
          λ p v goodv _ _.
            bind-Keeps L {Q = λ _ _. Unit} (do_after_select_hooks E.ctx E.hooks conn p) _
              (rw (hooks-pure E quiet conn p) (pure-Keeps L tt goodv tt))
              λ _ x goodx _ _. pure-Keeps L p goodx tt)
        (one-Runs E quiet w wf conn q o)
    where
      both :
          {F : Type 0}
          → {Q : UserPtr → World S → Type 0} (o : Result UserPtr × World S)
          → Keeps L w o (λ _ _. Unit)
          → Runs F w o Q
          → Keeps L w o Q
      both (ok p, v) k h = record { linked = k.linked; grows = k.grows; result = h.result }
      both (err e, v) k h = record { linked = k.linked; grows = k.grows; result = tt }
      both (panic why, v) k h = record { linked = k.linked; grows = k.grows; result = tt }
