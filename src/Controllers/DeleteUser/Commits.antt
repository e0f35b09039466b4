-- ===== src/Controllers/DeleteUser/Commits.antt =====
-- internal/controllers/user_controller.go: the statements of a `DeleteUser` that deletes.
use users_api.Base.{ℕ, String, none, some, [], ◌≡◌, refl, arith, nat_eq}
use users_api.Go.Error.{error_text}
use users_api.Go.Result.{ok, Attempt, done, failed, attempt}
use users_api.Go.Exec.{try, pure}
use users_api.Models.User.{Row, UserPtr, User}
use users_api.Models.Sql.{Conn, writer, in_tx, delete_id}
use users_api.Models.World.{World, with_db, change_db, get_user, new_user, read_db}
use users_api.Models.Hooks.None.{before_delete-pure, after_delete-pure, after_select-pure}
use users_api.Models.Hooks.{no_hooks}
use users_api.Models.Env.{Env}
use users_api.Models.Load.{eager_load}
use users_api.Models.Select.{find_user, find_query, bind_object}
use users_api.Models.Write.{delete, exec_rows}
use users_api.Controllers.Types.{Reply, json_error, send_status, UserController}
use users_api.Controllers.Request.{Request, get_user_id, error_response_handler}
use users_api.Controllers.DeleteUser.{
  with_rollback, delete_unless_devices, delete_and_commit, delete_in_tx, delete_user,
}

-- What a commit's outcome becomes.
abbrev pub committed : Attempt (Unit {0}) → Reply
committed (done _) = send_status 204
committed (failed e) = json_error 500 (error_text e)

module _ (E : Env) (quiet : E.hooks ≡ no_hooks) where
  open E use {sql as S}

  delete_lem :
      (w : World S) (p : UserPtr) (user : User) (n : ℕ) (deleted : S.Db)
      → w.heap.cell p ≡ some user
      → S.exec writer (delete_id user.columns.id) w.db ≡ (done (done n), deleted)
      → delete E writer (some p) w ≡ (ok n, with_db deleted w)
  unfolding delete get_user exec_rows change_db
  delete_lem w p user n deleted here executed =
      rw
        (
          before_delete-pure E.hooks quiet E.ctx writer p,
          here,
          executed,
          after_delete-pure E.hooks quiet E.ctx writer p,
        )
        refl

  find_user_lem :
      (w : World S) (conn : Conn S.Tx) (user_id : String) (row : Row)
      → S.bind_one conn (find_query user_id) w.db ≡ done row
      → find_user E conn user_id w
        ≡ (ok w.heap.next, (new_user (record { columns = row; r = none }) w).1)
  unfolding find_user bind_object read_db new_user eager_load
  find_user_lem w conn user_id row bound =
      rw (bound, after_select-pure E.hooks quiet E.ctx conn w.heap.next) refl

module _ (C : UserController) where
  open C.env use {sql as S, library as L}

  commit-committed :
      (r : Attempt (Unit {0})) (d : S.Db) (w : World S)
      → (try
            (λ v. (attempt r, with_db d v))
            (λ _. pure (send_status 204))
            (λ e. pure (json_error 500 (error_text e))))
          w
        ≡ (ok (committed r), with_db d w)
  commit-committed (done _) d w = refl
  commit-committed (failed e) d w = refl

  delete_and_commit_lem :
      (w : World S) (tx : S.Tx) (p : ℕ) (user : User) (n : ℕ) (deleted : S.Db)
      → C.env.hooks ≡ no_hooks
      → w.heap.cell p ≡ some user
      → S.exec writer (delete_id user.columns.id) w.db ≡ (done (done n), deleted)
      → delete_and_commit C tx p w
        ≡ (ok (committed (S.commit tx deleted).0), with_db (S.commit tx deleted).1 w)
  unfolding delete_and_commit change_db error_response_handler
  delete_and_commit_lem w tx p user n deleted quiet here executed =
      rw (delete_lem C.env quiet w p user n deleted here executed)
        (commit-committed (S.commit tx deleted).0 (S.commit tx deleted).1 (with_db deleted w))

  -- `DeleteUser` of a subject whose row is found in the transaction and who has no devices: the
  -- row is deleted on the writer, outside the transaction, then the transaction is committed and,
  -- by the deferred call, rolled back. The answer is 204 if the commit succeeded, and 500 with the
  -- text of its error if it failed; what the writer was asked to do is the same in both cases.
  -- This holds where no hook is registered and the deletion itself does not fail.
  pub delete_user-committed :
      (w : World S) (c : Request) (user_id : String) (tx : S.Tx) (begun deleted : S.Db) (row : Row)
      (n : ℕ)
      → C.env.hooks ≡ no_hooks
      → get_user_id c ≡ ok user_id
      → S.begin_tx w.db ≡ (done tx, begun)
      → S.bind_one (in_tx tx) (find_query user_id) begun ≡ done row
      → C.list_user_devices user_id ≡ done []
      → S.exec writer (delete_id row.id) begun ≡ (done (done n), deleted)
      → ((delete_user C c w).0 ≡ ok (committed (S.commit tx deleted).0))
        × ((delete_user C c w).1.db ≡ S.rollback tx (S.commit tx deleted).1)
  unfolding delete_user change_db with_rollback delete_in_tx delete_unless_devices new_user nat_eq
  delete_user-committed w c user_id tx begun deleted row n quiet subject began bound none_left
        executed =
      let v = (new_user (record { columns = row; r = none }) (with_db begun w)).1 in
      let here : v.heap.cell w.heap.next ≡ some (record { columns = row; r = none }) =
        ground arith in
      rw
        (
          subject,
          began,
          find_user_lem C.env quiet (with_db begun w) (in_tx tx) user_id row bound,
          none_left,
          delete_and_commit_lem v tx w.heap.next (record { columns = row; r = none }) n deleted
              quiet here executed,
        )
        (refl, refl)
