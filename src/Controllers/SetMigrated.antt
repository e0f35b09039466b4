-- ===== src/Controllers/SetMigrated.antt =====
-- internal/controllers/user_controller.go: `SetMigrated`.
pub mod Writes
use users_api.Base.{◌&&◌, ◌==◌, string_eq, if◌then◌else◌}
use users_api.Go.Exec.{Exec, pure, lift, try, ◌>>=◌, ◌>>◌}
use users_api.Go.Null.{Null, Time}
use users_api.Models.User.{UserPtr}
use users_api.Models.Sql.{writer}
use users_api.Models.World.{World, get_user, put_user}
use users_api.Models.Write.{update}
use users_api.Controllers.Types.{Reply, send_status, UserController}
use users_api.Controllers.Request.{Request, get_user_id}
use users_api.Controllers.GetUser.{get_or_create_user}
use users_api.Controllers.DeleteUser.{answer_error}

module _ (C : UserController) where
  open C.env use {sql as S, library as L}

  -- The new `MigratedAt`: cleared only on request, and only in the environment "dev".
  unfoldable pub migration_time : Request → Null Time
  migration_time c =
      if C.settings.environment == "dev" && c.query "clear" == "true"
      then L.null_time_of_nil
      else L.time_from C.env.now

  unfoldable pub save_migrated : Request → UserPtr → Exec (World S) Reply
  unfolding migration_time get_user put_user update
  save_migrated c user = do
    u ← get_user user
    put_user user (record u { columns = record u.columns { migrated_at = migration_time c } })
    try (update C.env writer user C.env.boil.infer) (λ _. pure (send_status 204))
        (answer_error C 500)

  -- `SetMigrated`
  unfoldable pub set_migrated : Request → Exec (World S) Reply
  unfolding get_user_id get_or_create_user save_migrated
  set_migrated c = do
    user_id ← lift (get_user_id c)
    try (get_or_create_user C user_id) (λ user. save_migrated c user) (answer_error C 500)
