-- ===== src/Models/Related/Links.antt =====
-- models/users.go: what `SetReferringUser` writes to the objects and to the database.
use users_api.Base.{ℕ, String, false, Option, none, some, [], ◌∷◌, ◌≡◌, ◌≢◌, refl, sym, ◌∙◌, nat_eq}
use users_api.Go.Error.{Error, wrap}
use users_api.Go.Result.{ok, err, Attempt, done, failed}
use users_api.Go.Exec.{Exec, ◌>>◌}
use users_api.Go.Steps.{bind-ok, bind-err, then_assoc}
use users_api.Go.Null.{Null}
use users_api.Models.User.{Column, text, UserPtr, UserR, User, empty_r}
use users_api.Models.Sql.{Sql, Conn, Statement, update_columns}
use users_api.Models.World.{World, with_db, get_user, put_user, change_db}
use users_api.Models.Objects.{set_cell_here, set_cell_there, get_user_lem, written}
use users_api.Models.Env.{Env}
use users_api.Models.Load.{ensure_r, modify_r, set_referring, add_referred}
use users_api.Models.Insert.{exec_only}
use users_api.Models.Related.{put_key, write_key, set_referring_user}

-- The relations struct of an object, made where it is nil.
abbrev pub relations : Option UserR → UserR
relations none = empty_r
relations (some r) = r

module _ {S : Sql} where
  -- A call that returns, and changes nothing but one object.
  pub record Sets (m : Exec (World S) (Unit {0})) (w : World S) (p : UserPtr) (u : User)
      : Type 0 where
    pub after : World S
    pub runs : m w ≡ (ok tt, after)
    pub here : after.heap.cell p ≡ some u
    pub others : (q : UserPtr) → p ≢ q → after.heap.cell q ≡ w.heap.cell q
    pub db : after.db ≡ w.db

  put_user-Sets : (w : World S) (p : UserPtr) (u : User) → Sets (put_user p u) w p u
  unfolding put_user
  put_user-Sets w p u = record {
    after = written p u w;
    runs = refl;
    here = set_cell_here w.heap.cell p u;
    others = λ q differ. set_cell_there w.heap.cell p q u differ;
    db = refl;
  }

  ensure_r-Sets :
      (w : World S) (p : UserPtr) (u : User) (r : Option UserR)
      → w.heap.cell p ≡ some (record u { r = r })
      → Sets (ensure_r p) w p (record u { r = some (relations r) })
  unfolding ensure_r put_user
  ensure_r-Sets w p u none h = record {
    after = written p (record u { r = some empty_r }) w;
    runs = rw (get_user_lem w p (record u { r = none }) h) refl;
    here = set_cell_here w.heap.cell p (record u { r = some empty_r });
    others = λ q differ. set_cell_there w.heap.cell p q (record u { r = some empty_r }) differ;
    db = refl;
  }
  ensure_r-Sets w p u (some r) h = record {
    after = w;
    runs = rw (get_user_lem w p (record u { r = some r }) h) refl;
    here = h;
    others = λ q differ. refl;
    db = refl;
  }

  modify_r-Sets :
      (w : World S) (p : UserPtr) (u : User) (r : UserR) (f : UserR → UserR)
      → w.heap.cell p ≡ some (record u { r = some r })
      → Sets (modify_r p f) w p (record u { r = some (f r) })
  unfolding modify_r put_user
  modify_r-Sets w p u r f h = record {
    after = written p (record u { r = some (f r) }) w;
    runs = rw (get_user_lem w p (record u { r = some r }) h) refl;
    here = set_cell_here w.heap.cell p (record u { r = some (f r) });
    others = λ q differ. set_cell_there w.heap.cell p q (record u { r = some (f r) }) differ;
    db = refl;
  }

  -- Two such calls on one object.
  pub Sets-trans :
      (m n : Exec (World S) (Unit {0})) (w : World S) (p : UserPtr) (u v : User) (s : Sets m w p u)
      → Sets n s.after p v
      → Sets (m >> n) w p v
  Sets-trans m n w p u v s t = record {
    after = t.after;
    runs = rw s.runs t.runs;
    here = t.here;
    others = λ q differ. t.others q differ ∙ s.others q differ;
    db = t.db ∙ s.db;
  }

  -- `if p.R == nil { p.R = &userR{...} } else { p.R... = ... }`
  pub attach-Sets :
      (w : World S) (p : UserPtr) (u : User) (f : UserR → UserR)
      → w.heap.cell p ≡ some u
      → Sets (ensure_r p >> modify_r p f) w p (record u { r = some (f (relations u.r)) })
  attach-Sets w p u f h =
      let s = ensure_r-Sets w p u u.r h in
      Sets-trans (ensure_r p) (modify_r p f) w p (record u { r = some (relations u.r) })
        (record u { r = some (f (relations u.r)) }) s
        (modify_r-Sets s.after p u (relations u.r) f s.here)

module _ (E : Env) where
  open E use {sql as S, library as L}

  abbrev pub with_key : Null String → User → User
  with_key key u = record u { columns = record u.columns { referring_user_id = key } }

  pub put_key-Sets :
      (w : World S) (p : UserPtr) (u : User) (key : Null String)
      → w.heap.cell p ≡ some u
      → Sets (put_key E p key) w p (with_key key u)
  unfolding put_key put_user
  put_key-Sets w p u key h = record {
    after = written p (with_key key u) w;
    runs = rw (get_user_lem w p u h) refl;
    here = set_cell_here w.heap.cell p (with_key key u);
    others = λ q differ. set_cell_there w.heap.cell p q (with_key key u) differ;
    db = refl;
  }

  abbrev key_statement : User → User → Statement
  key_statement ru u =
      update_columns (Column.referring_user_id ∷ []) (text ru.columns.id ∷ []) u.columns.id

  write_key_lem :
      (w : World S) (conn : Conn S.Tx) (referrer user : User) (r : Attempt ℕ) (d : S.Db)
      → S.exec conn (key_statement referrer user) w.db ≡ (done r, d)
      → write_key E "failed to update local table" conn referrer.columns.id user.columns.id w
        ≡ (ok tt, with_db d w)
  unfolding write_key exec_only change_db
  write_key_lem w conn referrer user r d executed = rw executed refl

  write_key-err :
      (w : World S) (conn : Conn S.Tx) (referrer user : User) (e : Error) (d : S.Db)
      → S.exec conn (key_statement referrer user) w.db ≡ (failed e, d)
      → write_key E "failed to update local table" conn referrer.columns.id user.columns.id w
        ≡ (err (wrap e "failed to update local table"), with_db d w)
  unfolding write_key exec_only change_db
  write_key-err w conn referrer user e d failing = rw failing refl

  -- What `SetReferringUser` leaves when its statement succeeds.
  pub record Linked (w v : World S) (o related : UserPtr) (user referrer : User) (d : S.Db)
      : Type 0 where
    pub local :
        v.heap.cell o
        ≡ some (record {
          columns = record user.columns { referring_user_id = L.key_assign referrer.columns.id };
          r = some (set_referring (some related) (relations user.r));
        })
    pub foreign :
        v.heap.cell related
        ≡ some (record referrer { r = some (add_referred o (relations referrer.r)) })
    pub others : (q : UserPtr) → o ≢ q → related ≢ q → v.heap.cell q ≡ w.heap.cell q
    pub db : v.db ≡ d

  -- `SetReferringUser` of two distinct objects, without an insertion: if the statement that
  -- writes the referrer's id as the foreign key of the row succeeds, the call returns, the object
  -- has that key and points to the referrer, the referrer's list ends in the object, their other
  -- columns and relations are kept, and so is every other object.
  pub set_referring_user-Linked :
      (w : World S) (conn : Conn S.Tx) (o related : UserPtr) (user referrer : User) (r : Attempt ℕ)
      (d : S.Db)
      → o ≢ related
      → w.heap.cell o ≡ some user
      → w.heap.cell related ≡ some referrer
      → S.exec conn (key_statement referrer user) w.db ≡ (done r, d)
      → ((set_referring_user E conn false o related w).0 ≡ ok tt)
        × Linked w (set_referring_user E conn false o related w).1 o related user referrer d
  unfolding set_referring_user
  set_referring_user-Linked w conn o related user referrer r d differ here there executed =
      let s = put_key-Sets (with_db d w) o user (L.key_assign referrer.columns.id) here in
      let t =
        attach-Sets s.after o (with_key (L.key_assign referrer.columns.id) user)
          (set_referring (some related)) s.here in
      let there' = t.others related differ ∙ (s.others related differ ∙ there) in
      let x = attach-Sets t.after related referrer (add_referred o) there' in
      let write =
        write_key E "failed to update local table" conn referrer.columns.id user.columns.id in
      let key = put_key E o (L.key_assign referrer.columns.id) in
      let local = ensure_r o >> modify_r o (set_referring (some related)) in
      let foreign = ensure_r related >> modify_r related (add_referred o) in
      let steps : set_referring_user E conn false o related w ≡ (ok tt, x.after) =
        bind-ok (get_user related) (λ ru. _) w w referrer (get_user_lem w related referrer there)
        ∙ (bind-ok (get_user o) (λ u. _) w w user (get_user_lem w o user here)
            ∙ (bind-ok write
                  (λ _.
                    key >> (ensure_r o >> (modify_r o (set_referring (some related)) >> foreign)))
                  w (with_db d w) tt (write_key_lem w conn referrer user r d executed)
                ∙ (bind-ok key
                      (λ _. ensure_r o >> (modify_r o (set_referring (some related)) >> foreign))
                      (with_db d w) s.after tt s.runs
                    ∙ (sym (
                          then_assoc (ensure_r o) (modify_r o (set_referring (some related)))
                            foreign s.after)
                        ∙ (bind-ok local (λ _. foreign) s.after t.after tt t.runs ∙ x.runs))))) in
      rw steps (
        refl,
        record {
          local = x.others o (λ e. differ (sym e)) ∙ t.here;
          foreign = x.here;
          others = λ q no yes'. x.others q yes' ∙ (t.others q no ∙ s.others q no);
          db = x.db ∙ (t.db ∙ s.db);
        },
      )

  -- `SetReferringUser` whose statement fails returns its error, with the context of the call, and
  -- leaves every object as it was.
  pub set_referring_user-err :
      (w : World S) (conn : Conn S.Tx) (o related : UserPtr) (user referrer : User) (e : Error)
      (d : S.Db)
      → w.heap.cell o ≡ some user
      → w.heap.cell related ≡ some referrer
      → S.exec conn (key_statement referrer user) w.db ≡ (failed e, d)
      → set_referring_user E conn false o related w
        ≡ (err (wrap e "failed to update local table"), with_db d w)
  unfolding set_referring_user
  set_referring_user-err w conn o related user referrer e d here there failing =
      bind-ok (get_user related) (λ ru. _) w w referrer (get_user_lem w related referrer there)
      ∙ (bind-ok (get_user o) (λ u. _) w w user (get_user_lem w o user here)
          ∙ bind-err
              (write_key E "failed to update local table" conn referrer.columns.id user.columns.id)
              (λ _. _) w (with_db d w) (wrap e "failed to update local table")
              (write_key-err w conn referrer user e d failing))
