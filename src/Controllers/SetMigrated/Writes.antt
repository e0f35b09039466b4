-- ===== src/Controllers/SetMigrated/Writes.antt =====
-- internal/controllers/user_controller.go: what `SetMigrated` writes.
use mathlib.Core.Path.{subst}
use users_api.Base.{
  ℕ, String, false, Option, some, List, [], ◌∷◌, ◌≡◌, refl, sym, ◌∙◌, arith, map, ◌==◌, ◌&&◌, ◌⊎◌,
  inl, inr, All, string_eq, nat_eq, length, if◌then◌else◌,
}
use users_api.Go.Result.{Result, ok, err, panic, done}
use users_api.Go.Exec.{pure, try, handle_result}
use users_api.Models.User.{Column, Row, UserPtr, User, column_value}
use users_api.Models.Where.{where_op}
use users_api.Models.Sql.{Sql, reader, writer, update_columns}
use users_api.Models.World.{World, change_db, get_user, put_user, set_cell}
use users_api.Models.Hooks.{no_hooks}
use users_api.Models.Env.{Env}
use users_api.Models.Laws.{In}
use users_api.Models.Select.{users, one}
use users_api.Models.Write.{update, build_update, update_whitelist, exec_rows}
use users_api.Models.Write.Cached.{IsBuilt, update_uncached, update-uncached}
use users_api.Models.Runs.{IsWf, Runs, HasColumns}
use users_api.Models.Runs.Reasons.{ReferrersFail, row_fails, referrer_fails}
use users_api.Models.Runs.Steps.{wrapping-Runs}
use users_api.Models.Runs.Finish.{Found, one-Runs}
use users_api.Controllers.Types.{Reply, send_status, json_error, UserController}
use users_api.Controllers.Request.{Request, get_user_id, error_response_handler}
use users_api.Controllers.GetUser.{by_id_query, get_or_create_user}
use users_api.Controllers.Answers.{by_id_limited, ByIdFails}
use users_api.Controllers.DeleteUser.{answer_error}
use users_api.Controllers.SetMigrated.{migration_time, save_migrated, set_migrated}

In-nonempty : {A : Type 0} (a : A) (xs : List A) → In a xs → (length xs == 0) ≡ false
In-nonempty a [] h = absurd h
In-nonempty a (x ∷ xs) h = ground arith

module _ (E : Env) (quiet : E.hooks ≡ no_hooks) where
  open E use {sql as S, library as L}

  uncached_lem :
      (w : World S) (p : UserPtr) (user : User) (n : ℕ) (written : S.Db)
      → w.heap.cell p ≡ some user
      → (length (update_whitelist E E.boil.infer) == 0) ≡ false
      → S.exec writer
          (update_columns
            (update_whitelist E E.boil.infer)
            (map (λ c. column_value c user.columns) (update_whitelist E E.boil.infer))
            user.columns.id)
          w.db
        ≡ (done (done n), written)
      → ((update_uncached E writer p E.boil.infer w).0 ≡ ok n)
        × ((update_uncached E writer p E.boil.infer w).1.db ≡ written)
  unfolding update_uncached build_update get_user exec_rows change_db
  uncached_lem w p user n written here some_column executed =
      rw (some_column, here, executed) (refl, refl)

  -- `Update` through the cache, whatever is in it, by the statement that it runs.
  update_lem :
      (w : World S) (p : UserPtr) (user : User) (n : ℕ) (written : S.Db)
      → All (IsBuilt E) w.update_cache
      → w.heap.cell p ≡ some user
      → (length (update_whitelist E E.boil.infer) == 0) ≡ false
      → S.exec writer
          (update_columns
            (update_whitelist E E.boil.infer)
            (map (λ c. column_value c user.columns) (update_whitelist E E.boil.infer))
            user.columns.id)
          w.db
        ≡ (done (done n), written)
      → ((update E writer p E.boil.infer w).0 ≡ ok n)
        × ((update E writer p E.boil.infer w).1.db ≡ written)
  update_lem w p user n written built here some_column executed =
      let (result, _, db, _) = update-uncached E writer p E.boil.infer w quiet built in
      let (result', db') = uncached_lem w p user n written here some_column executed in
      (result ∙ result', db ∙ db')

set_cell_here :
    (cell : UserPtr → Option User) (p : UserPtr) (u : User) → set_cell cell p u p ≡ some u
set_cell_here cell p u = ground arith

get_lem :
    {S : Sql} (v : World S) (p : UserPtr) (u : User)
    → v.heap.cell p ≡ some u
    → get_user p v ≡ (ok u, v)
unfolding get_user
get_lem v p u here = rw (here, get_user) refl

module _ (C : UserController) where
  open C.env use {sql as S, library as L}

  -- The columns that `Update` writes for `boil.Infer()`.
  abbrev pub updated_columns : List Column
  updated_columns = update_whitelist C.env C.env.boil.infer

  -- The statement writes a row back with the new migration time.
  abbrev Executes : Request → Row → S.Db → ℕ → S.Db → Type 0
  Executes c row d n written =
      S.exec writer
        (update_columns updated_columns
          (map
            (λ col. column_value col (record row {
              migrated_at =
                  if C.settings.environment == "dev" && c.query "clear" == "true"
                  then L.null_time_of_nil
                  else L.time_from C.env.now;
            }))
            updated_columns)
          row.id)
        d
      ≡ (done (done n), written)

  -- The object that was found is written back.
  save_migrated-written :
      (v : World S) (c : Request) (p : UserPtr) (row : Row) (n : ℕ) (written : S.Db)
      → C.env.hooks ≡ no_hooks
      → All (IsBuilt C.env) v.update_cache
      → HasColumns v.heap p row
      → (length updated_columns == 0) ≡ false
      → Executes c row v.db n written
      → ((save_migrated C c p v).0 ≡ ok (send_status 204))
        × ((save_migrated C c p v).1.db ≡ written)
  unfolding save_migrated migration_time put_user
  save_migrated-written v c p row n written quiet built has some_column executed =
      let user : User = record has.user {
        columns = record has.user.columns { migrated_at = migration_time C c };
      } in
      let x = (put_user p user v).1 in
      let u =
        update_lem C.env quiet x p user n written built (set_cell_here v.heap.cell p user)
          some_column (subst (λ (r : Row). Executes c r v.db n written) (sym has.same) executed) in
      rw (get_lem v p has.user has.here) (saved (update C.env writer p C.env.boil.infer x) u.0 u.1)
    where
      saved :
          (o : Result ℕ × World S)
          → o.0 ≡ ok n
          → o.1.db ≡ written
          → ((try (λ _. o) (λ _. pure (send_status 204)) (answer_error C 500) v).0
              ≡ ok (send_status 204))
            × ((try (λ _. o) (λ _. pure (send_status 204)) (answer_error C 500) v).1.db ≡ written)
      saved (ok m, y) e d = (refl, d)
      saved (err z, y) e d = cc
      saved (panic why, y) e d = cc

  -- The row is written and the answer is 204; or the query for the referrer fails, nothing is written
  -- and the answer is 500.
  abbrev pub IsWritten : World S → Row → S.Db → Result Reply × World S → Type 0
  IsWritten w row written o =
      ((o.0 ≡ ok (send_status 204)) × (o.1.db ≡ written))
      ⊎ (ReferrersFail C.env reader (row ∷ []) w.db
          × ((text : String) × (o.0 ≡ ok (json_error 500 text)))
          × (o.1.db ≡ w.db))

  -- Where the row was found, only the query for its referrer can fail.
  referrer_failed :
      (user_id : String) (d : S.Db) (row : Row)
      → S.bind_one reader (by_id_limited user_id) d ≡ done row
      → ByIdFails C user_id d
      → ReferrersFail C.env reader (row ∷ []) d
  referrer_failed user_id d row bound (row_fails e f) = cc (bound, f)
  referrer_failed user_id d row bound (referrer_fails other b l f) =
      let same : other ≡ row = cc (bound, b) in
      subst (λ (r : Row). ReferrersFail C.env reader (r ∷ []) d) same f

  -- `SetMigrated` of a subject whose row is found, in a process without hooks whose cache holds under
  -- each key what was built for a set of columns with that key: the row is written on the writer,
  -- under its key, with the new migration time in place of the old one and all other columns as they
  -- were read, and the answer is 204; or the query for the referrer of the row fails, nothing is
  -- written, and the answer is 500. The new time is null exactly on the request to clear it in the
  -- environment "dev", and the current time otherwise. This holds from a well-formed heap, where
  -- `migrated_at` is one of the columns that `boil.Infer()` updates and the update itself does not
  -- fail.
  pub set_migrated-IsWritten :
      (w : World S) (c : Request) (user_id : String) (row : Row) (n : ℕ) (written : S.Db)
      → C.env.hooks ≡ no_hooks
      → IsWf w.heap
      → All (IsBuilt C.env) w.update_cache
      → get_user_id c ≡ ok user_id
      → S.bind_one reader (by_id_limited user_id) w.db ≡ done row
      → In Column.migrated_at updated_columns
      → S.exec writer
          (update_columns updated_columns
            (map
              (λ col. column_value col (record row {
                migrated_at =
                    if C.settings.environment == "dev" && c.query "clear" == "true"
                    then L.null_time_of_nil
                    else L.time_from C.env.now;
              }))
              updated_columns)
            row.id)
          w.db
        ≡ (done (done n), written)
      → IsWritten w row written (set_migrated C c w)
  unfolding set_migrated get_or_create_user users where_op error_response_handler
  set_migrated-IsWritten w c user_id row n written quiet wf built subject bound updated executed =
      let x = get_or_create_user C user_id w in
      rw subject (
        answered x.0 x.1 (
          wrapping-Runs _ (one C.env reader (by_id_query user_id)) (
            one-Runs C.env (λ i. (quiet i).after_select_hooks) w wf reader (by_id_query user_id)
              tt)))
    where
      answered :
          (r : Result UserPtr) (v : World S)
          → Runs (ByIdFails C user_id w.db) w (r, v) (Found C.env reader (by_id_limited user_id) w)
          → IsWritten w row written
              (handle_result r (λ user. save_migrated C c user) (answer_error C 500) v)
      answered (ok p) v h =
          let f = h.result in
          inl (
            save_migrated-written v c p row n written quiet
              (subst (All (IsBuilt C.env)) (sym h.cache) built)
              (subst (HasColumns v.heap p) (cc (bound, f.bound)) f.columns)
              (In-nonempty Column.migrated_at updated_columns updated)
              (subst (λ (d : S.Db). Executes c row d n written) (sym h.db) executed))
      answered (err e) v h = inr (referrer_failed user_id w.db row bound h.result, (_, refl), h.db)
      answered (panic why) v h = absurd h.result
