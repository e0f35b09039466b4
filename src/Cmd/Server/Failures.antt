-- ===== src/Cmd/Server/Failures.antt =====
-- cmd/users-api/main.go and internal/controllers/user_controller.go: what a client is answered if
-- its token is refused, or if its row cannot be read.
use users_api.Base.{
  String, ◌<>◌, Bool, true, false, some, List, [], ◌∷◌, ◌≡◌, refl, arith, All, inl, inr,
  if◌then◌else◌,
}
use users_api.Go.Error.{Error, err_no_rows, wrap, error_text, is_no_rows}
use users_api.Go.Result.{ok, err, failed}
use users_api.Models.Sql.{Query, Conn, reader}
use mathlib.Core.Path.{subst, sym}
use users_api.Models.Laws.{In}
use users_api.Models.World.{World, read_db}
use users_api.Models.Env.{Env}
use users_api.Models.Select.{one, bind_object, keep_no_rows}
use users_api.Controllers.Types.{json_error, UserController}
use users_api.Controllers.Request.{Request, get_user_id, error_response_handler}
use users_api.Controllers.GetUser.{by_id_query, get_or_create_user, get_user_v1, get_user_v2}
use users_api.Controllers.Answers.{by_id_limited}
use users_api.Controllers.SetMigrated.{set_migrated}
use users_api.Cmd.Server.{
  Handler, health, swagger, check_email_handler, get_user_v2_handler, get_user_handler,
  set_migrated_handler, Route, routes, Answer, handled, error_map, error_handler, Middleware,
  settle, run_handler, run_settled, serve,
}

-- The handlers that anyone may call.
abbrev pub is_public : Handler → Bool
is_public health = true
is_public swagger = true
is_public check_email_handler = true
is_public _ = false

module _ (M : Middleware) (C : UserController) where
  open C.env use {sql as S, library as L}

  All-In : (P : Route → Type 0) (rs : List Route) (r : Route) → All P rs → In r rs → P r
  All-In P [] r a m = absurd m
  All-In P (x ∷ rs) r a (inl e) = subst P (sym e) a.0
  All-In P (x ∷ rs) r a (inr m) = All-In P rs r a.1 m

  guarded :
      (c : Request) (a : Answer) (w : World S)
      → M.authenticate c ≡ inr a
      → All (λ route. is_public route.handler ≡ false → serve M C route c w ≡ (a, w)) routes
  unfolding routes serve
  guarded c a w refused = (
    λ z. cc,
    (
      λ z. cc,
      (
        λ z. cc,
        (
          λ _. rw refused refl,
          (λ _. rw refused refl, (λ _. rw refused refl, (λ _. rw refused refl, tt))),
        ),
      ),
    ),
  )

  -- At every route of the table but those of the health check, of Swagger and of the e-mail check, a
  -- request whose token the middleware refuses gets the middleware's answer, and no handler runs:
  -- the world stays as it is.
  pub serve-refused :
      (route : Route) (c : Request) (a : Answer) (w : World S)
      → In route routes
      → is_public route.handler ≡ false
      → M.authenticate c ≡ inr a
      → serve M C route c w ≡ (a, w)
  serve-refused route c a w listed private refused =
      All-In (λ r. is_public r.handler ≡ false → serve M C r c w ≡ (a, w)) routes route
        (guarded c a w refused) listed private

one_failed :
    (E : Env) (conn : Conn E.sql.Tx) (q : Query) (w : World E.sql) (e : Error)
    → E.sql.bind_one conn (record q { limit = some 1 }) w.db ≡ failed e
    → one E conn q w ≡ (
      err (
          if is_no_rows e
          then err_no_rows
          else wrap e "models: failed to execute a one query for users"),
      w,
    )
unfolding one bind_object keep_no_rows read_db
one_failed E conn q w e h = rw h refl

module _ (M : Middleware) (C : UserController) where
  open C.env use {sql as S, library as L}

  abbrev pub deprecated_text : String → String
  deprecated_text user_id =
      "No user with id "
      <> (L.quote user_id <> ". This API is deprecated and new users cannot be created.")

  abbrev pub missing_text : String → String
  missing_text user_id = "No user with id " <> (user_id <> ".")

  -- If the token has a subject and the subject's row cannot be read, the two handlers that show a
  -- user answer 404 for a missing row, with a text that names the id, and otherwise 500 with a
  -- text that tells nothing of the error. `SetMigrated` answers 500 in both cases, with the text
  -- of the error. The world stays as it is.
  pub read_failed-answers :
      (c : Request) (user_id : String) (w : World S) (e : Error)
      → get_user_id c ≡ ok user_id
      → S.bind_one reader (by_id_limited user_id) w.db ≡ failed e
      → (run_settled M C get_user_v2_handler c w ≡ (
        (if is_no_rows e
            then error_map 404 (missing_text user_id)
            else error_map 500 "Internal error."),
        w,
      ))
        × (run_settled M C get_user_handler c w ≡ (
          (if is_no_rows e
              then error_map 404 (deprecated_text user_id)
              else error_map 500 "Internal error."),
          w,
        ))
        × (run_settled M C set_migrated_handler c w ≡ (
          handled (
              json_error 500 (
                if is_no_rows e
                then deprecated_text user_id
                else error_text (wrap e "models: failed to execute a one query for users"))),
          w,
        ))
  unfolding run_settled run_handler settle error_handler get_user_v1 get_user_v2 set_migrated
      get_or_create_user error_response_handler error_text is_no_rows
  read_failed-answers c user_id w e subject bound =
      let h = one_failed C.env reader (by_id_query user_id) w e bound in
      (
        rw (subject, h) (ground arith),
        rw (subject, h) (ground arith),
        rw (subject, h) (ground arith),
      )
