-- ===== src/Controllers/DeleteUser.antt =====
-- internal/controllers/user_controller.go: `DeleteUser`.
pub mod Commits
pub mod Effects
use users_api.Base.{ℕ, String, ◌<>◌, some, ◌==◌, nat_eq, length, if◌then◌else◌}
use users_api.Go.Error.{Error, message, fiber_error, is_no_rows}
use users_api.Go.Result.{attempt}
use users_api.Go.Exec.{Exec, pure, raise, lift, try, ◌>>=◌}
use users_api.Models.User.{UserPtr}
use users_api.Models.Sql.{writer, in_tx}
use users_api.Models.World.{World, with_db, change_db}
use users_api.Models.CacheKey.{itoa}
use users_api.Models.Select.{find_user}
use users_api.Models.Write.{delete}
use users_api.Controllers.Types.{Reply, send_status, UserController}
use users_api.Controllers.Request.{Request, get_user_id, error_response_handler}

module _ (C : UserController) where
  open C.env use {sql as S, library as L}

  -- `return errorResponseHandler(c, err, status)`
  abbrev pub answer_error : ℕ → Error → Exec (World S) Reply
  answer_error status e = pure (error_response_handler (some e) status)

  -- `defer tx.Rollback()`: it runs however the rest of the handler ends.
  unfoldable pub with_rollback : {A : Type 0} → S.Tx → Exec (World S) A → Exec (World S) A
  with_rollback tx body w = let (r, w') = body w in (r, with_db (S.rollback tx w'.db) w')

  -- From the deletion on: it runs on the writer, not in the transaction.
  unfoldable pub delete_and_commit : S.Tx → UserPtr → Exec (World S) Reply
  unfolding delete change_db
  delete_and_commit tx user =
      try (delete C.env writer (some user))
        (λ _. try (change_db (S.commit tx)) (λ _. pure (send_status 204)) (answer_error 500))
        (answer_error 500)

  -- From the list of the user's devices on.
  unfoldable pub delete_unless_devices : S.Tx → String → UserPtr → Exec (World S) Reply
  unfolding delete_and_commit itoa
  delete_unless_devices tx user_id user =
      try (lift (attempt (C.list_user_devices user_id)))
        (λ devices.
          if length devices == 0
          then delete_and_commit tx user
          else answer_error 409
              (message ("user must delete " <> (itoa (length devices) <> " devices first"))))
        (answer_error 500)

  abbrev pub find_failed : String → Error → Exec (World S) Reply
  find_failed user_id e =
      if is_no_rows e
      then raise (fiber_error 404 ("No user with id " <> (L.quote user_id <> ".")))
      else answer_error 500 e

  unfoldable pub delete_in_tx : String → S.Tx → Exec (World S) Reply
  unfolding find_user delete_unless_devices
  delete_in_tx user_id tx =
      try (find_user C.env (in_tx tx) user_id) (λ user. delete_unless_devices tx user_id user)
        (find_failed user_id)

  -- `DeleteUser`
  unfoldable pub delete_user : Request → Exec (World S) Reply
  unfolding get_user_id change_db with_rollback delete_in_tx
  delete_user c = do
    user_id ← lift (get_user_id c)
    try (change_db S.begin_tx) (λ tx. with_rollback tx (delete_in_tx user_id tx)) (answer_error 500)
