-- ===== src/Controllers/GetUser.antt =====
-- internal/controllers/user_controller.go: `getOrCreateUser`, `getUserByEth`, and the handlers
-- `GetUser` and `GetUserV2`.
use users_api.Base.{
  String, ◌<>◌, Bool, false, Option, none, some, [], ◌∷◌, ◌==◌, string_eq, if◌then◌else◌,
}
use users_api.Go.Error.{Error, fiber_error, is_no_rows}
use users_api.Go.Result.{Attempt, done, failed}
use users_api.Go.Exec.{Exec, pure, lift, try, wrapping, ◌>>=◌, ◌>>◌}
use users_api.Go.Null.{Address}
use users_api.Models.User.{UserPtr}
use users_api.Models.Where.{load, order_by, referring_user, where_op, eq, where_eq_null}
use users_api.Models.UserWhere
use users_api.Models.Sql.{reader, Query}
use users_api.Models.World.{World, get_user, put_user}
use users_api.Models.Select.{users, one}
use users_api.Controllers.Types.{Reply, json_user, UserController}
use users_api.Controllers.Request.{Request, get_user_id, get_user_eth_addr}
use users_api.Controllers.Format.{format_user}
use users_api.Controllers.Used.{compute_web3_used}

abbrev pub by_id_query : String → Query
by_id_query user_id = users (where_op eq UserWhere.id user_id ∷ load referring_user ∷ [])

-- A failure to determine the flag is logged, and leaves it unset.
unfoldable pub used_or_false : Attempt Bool → Bool
used_or_false (done used) = used
used_or_false (failed e) = false

module _ (C : UserController) where
  open C.env use {sql as S, library as L}

  -- A missing row becomes the handler's own error.
  abbrev pub not_found_as : Error → Error → Error
  not_found_as missing e = if is_no_rows e then missing else e

  -- `getOrCreateUser`
  unfoldable pub get_or_create_user : String → Exec (World S) UserPtr
  unfolding one users where_op
  get_or_create_user user_id =
      wrapping
        (not_found_as (
          fiber_error 404 (
            "No user with id "
            <> (L.quote user_id <> ". This API is deprecated and new users cannot be created."))))
        (one C.env reader (by_id_query user_id))

  abbrev pub by_eth_query : Address → Query
  by_eth_query eth_addr = users (
      where_eq_null UserWhere.ethereum_address (L.bytes_from (some eth_addr))
      ∷ load referring_user
      ∷ order_by "email_confirmed desc"
      ∷ [])

  -- `getUserByEth`
  unfoldable pub get_user_by_eth : Address → Exec (World S) UserPtr
  unfolding one users where_eq_null
  get_user_by_eth eth_addr = one C.env reader (by_eth_query eth_addr)

  -- The end that both handlers share: format, fill in `Used`, send.
  unfoldable pub respond_user : UserPtr → Exec (World S) Reply
  unfolding format_user get_user compute_web3_used used_or_false
  respond_user p = do
    out ← format_user L p
    user ← get_user p
    let used = used_or_false (compute_web3_used C user.columns)
    pure (json_user (record out { web3 = record out.web3 { used = used } }))

  -- `GetUserV2`
  unfoldable pub get_user_v2 : Request → Exec (World S) Reply
  unfolding get_user_id one users where_op respond_user
  get_user_v2 c = do
    user_id ← lift (get_user_id c)
    user ←
        wrapping (not_found_as (fiber_error 404 ("No user with id " <> (user_id <> "."))))
          (one C.env reader (by_id_query user_id))
    respond_user user

  -- `if user.ID != userBetter.ID { user = userBetter; user.ID = userID }`
  unfoldable pub prefer : String → UserPtr → UserPtr → Exec (World S) UserPtr
  unfolding get_user put_user
  prefer user_id user better = do
    u ← get_user user
    b ← get_user better
    if u.columns.id == b.columns.id
        then pure user
        else (put_user better (record b { columns = record b.columns { id = user_id } })
            >> pure better)

  -- The user that `GetUser` shows, given the claimed address. An error of the second query is
  -- dropped.
  unfoldable pub better_user : String → Option Address → UserPtr → Exec (World S) UserPtr
  unfolding get_user_by_eth prefer
  better_user user_id none user = pure user
  better_user user_id (some eth_addr) user =
      try (get_user_by_eth eth_addr) (λ better. prefer user_id user better) (λ e. pure user)

  -- `GetUser`
  unfoldable pub get_user_v1 : Request → Exec (World S) Reply
  unfolding get_user_id get_or_create_user get_user_eth_addr better_user respond_user
  get_user_v1 c = do
    user_id ← lift (get_user_id c)
    user ← get_or_create_user user_id
    eth_addr ← lift (get_user_eth_addr L c)
    shown ← better_user user_id eth_addr user
    respond_user shown
