-- ===== src/Cmd/Server.antt =====
-- cmd/users-api/main.go: the routes of `startWebAPI` with their middleware, `HealthCheck` and
-- `ErrorHandler`.
pub mod Failures
use users_api.Base.{ℕ, String, Bool, true, false, List, [], ◌∷◌, ◌⊎◌, inl, inr, if◌then◌else◌}
use users_api.Go.Error.{Error, err_no_rows, message, wrap, fiber_error, status_error}
use users_api.Go.Result.{Result, ok, err, panic}
use users_api.Go.Exec.{Exec, pure, ◌>>=◌}
use users_api.Models.World.{World}
use users_api.Controllers.Types.{Reply, UserController}
use users_api.Controllers.Request.{Request}
use users_api.Controllers.GetUser.{get_user_v1, get_user_v2}
use users_api.Controllers.DeleteUser.{delete_user}
use users_api.Controllers.SetMigrated.{set_migrated}
use users_api.Controllers.CheckEmail.{check_email}

pub data Method : Type 0 where
  get post delete : Method

pub data Handler : Type 0 where
  health swagger check_email_handler get_user_v2_handler : Handler
  get_user_handler delete_user_handler set_migrated_handler : Handler

-- A registration: the group's prefix and the path, and whether `auth` stands before the handler.
pub record Route : Type 0 where
  pub method : Method
  pub group : String
  pub path : String
  pub auth : Bool
  pub handler : Handler

abbrev pub public_route : Method → String → Handler → Route
public_route m path h = record { method = m; group = ""; path = path; auth = false; handler = h }

abbrev pub user_route : Method → String → String → Handler → Route
user_route m group path h = record {
  method = m;
  group = group;
  path = path;
  auth = true;
  handler = h;
}

-- The registrations of `startWebAPI`, in order.
unfoldable pub routes : List Route
routes =
    public_route get "/" health
    ∷ public_route get "/v1/swagger/*" swagger
    ∷ public_route post "/v1/check-email" check_email_handler
    ∷ user_route get "" "/v2/user" get_user_v2_handler
    ∷ user_route get "/v1/user" "/" get_user_handler
    ∷ user_route delete "/v1/user" "/" delete_user_handler
    ∷ user_route post "/v1/user" "/set-migrated" set_migrated_handler
    ∷ []

-- What the server sends.
pub data Answer : Type 0 where
  handled : Reply → Answer
  -- the map of `HealthCheck`
  health_data : String → Answer
  -- the map of `ErrorHandler`: its status and code, and its message
  error_map : ℕ → String → Answer
  -- sent by the JWT middleware or by the Swagger UI
  other_answer : ℕ → Answer

-- `ErrorHandler`: only a `*fiber.Error` shows its code and text.
unfoldable pub error_handler : Error → Answer
error_handler (fiber_error code text) = error_map code text
error_handler err_no_rows = error_map 500 "Internal error."
error_handler (message text) = error_map 500 "Internal error."
error_handler (wrap e context) = error_map 500 "Internal error."
error_handler (status_error code text) = error_map 500 "Internal error."

-- The middleware that the server takes from other packages: `recover` makes an error of a panic,
-- and `jwtware` either sets the token of the request or answers by itself.
pub record Middleware : Type 0 where
  pub recovered : String → Error
  pub authenticate : Request → Request ⊎ Answer
  pub swagger_ui : Request → Answer

-- `HealthCheck`
unfoldable pub health_check : Answer
health_check = health_data "Server is up and running"

module _ (M : Middleware) (C : UserController) where
  open C.env use {sql as S}

  -- What a handler's outcome becomes under `recover` and the error handler.
  unfoldable pub settle : Result Answer → Answer
  unfolding error_handler
  settle (ok a) = a
  settle (err e) = error_handler e
  settle (panic why) = error_handler (M.recovered why)

  abbrev as_answer : Exec (World S) Reply → Exec (World S) Answer
  as_answer m = m >>= λ a. pure (handled a)

  unfoldable pub run_handler : Handler → Request → Exec (World S) Answer
  unfolding health_check get_user_v1 get_user_v2 delete_user set_migrated check_email
  run_handler health c = pure health_check
  run_handler swagger c = pure (M.swagger_ui c)
  run_handler check_email_handler c = as_answer (check_email C c)
  run_handler get_user_v2_handler c = as_answer (get_user_v2 C c)
  run_handler get_user_handler c = as_answer (get_user_v1 C c)
  run_handler delete_user_handler c = as_answer (delete_user C c)
  run_handler set_migrated_handler c = as_answer (set_migrated C c)

  unfoldable pub run_settled : Handler → Request → World S → Answer × World S
  unfolding settle run_handler
  run_settled h c w = let (r, w') = run_handler h c w in (settle r, w')

  abbrev pub after_auth : Handler → Request ⊎ Answer → World S → Answer × World S
  after_auth h (inl c) w = run_settled h c w
  after_auth h (inr a) w = (a, w)

  -- A request at a route that the router chose.
  unfoldable pub serve : Route → Request → World S → Answer × World S
  unfolding run_settled
  serve route c w =
      if route.auth
      then after_auth route.handler (M.authenticate c) w
      else run_settled route.handler c w
