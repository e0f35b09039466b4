-- ===== src/Api/Users.antt =====
-- internal/api/users.go: the three methods of `userService` and its `formatUser`.
use users_api.Base.{String, Bool, true, false, Option, none, some, List, [], ◌∷◌, if◌then◌else◌}
use users_api.Go.Error.{Error, status_error, is_no_rows}
use users_api.Go.Exec.{Exec, pure, crash, wrapping, ◌>>=◌}
use users_api.Go.Null.{Bytes}
use users_api.Go.Library.{Library}
use users_api.Models.User.{Row, UserPtr, UserR, User}
pub use users_api.Grpc.Messages.{UserReferrer, PbUser}
use users_api.Models.Where.{load, order_by, referring_user, where_op, eq, where_eq_null}
use users_api.Models.UserWhere
use users_api.Models.Sql.{Sql, Query, reader}
use users_api.Models.World.{World, get_user, get_optional}
use users_api.Models.Env.{Env}
use users_api.Models.Select.{users, one, all_users}

-- `var pbRef pb.UserReferrer`
abbrev pub zero_referrer : UserReferrer
zero_referrer = record { ethereum_address = none; referrer_valid = false; id = "" }

-- What the fields of `pbRef` become for a loaded referrer.
unfoldable pub format_referrer : Option User → UserReferrer
format_referrer none = zero_referrer
format_referrer (some ref) =
    if ref.ethereum_confirmed
    then record {
      ethereum_address = ref.columns.ethereum_address.value;
      referrer_valid = true;
      id = ref.columns.id;
    }
    else zero_referrer

module _ {S : Sql} where
  -- `user.R.ReferringUser`, which panics where `user.R` is nil.
  unfoldable pub deref_referrer : Option UserR → Exec (World S) (Option User)
  unfolding get_optional
  deref_referrer none = crash "nil userR"
  deref_referrer (some r) = get_optional r.referring_user

  -- The block under `if user.ReferredAt.Valid`.
  unfoldable pub referred_by : Bool → Option UserR → Exec (World S) (Option UserReferrer)
  unfolding deref_referrer format_referrer
  referred_by false r = pure none
  referred_by true r = do ref ← deref_referrer r; pure (some (format_referrer ref))

module _ (L : Library) where
  -- The message, once the referrer is known.
  unfoldable pub pb_user : Row → Option UserReferrer → PbUser
  pb_user user ref = record {
    id = user.id;
    ethereum_address =
        if user.ethereum_confirmed
        then some (L.address_hex (L.bytes_to_address user.ethereum_address.value))
        else none;
    email_address = if user.email_confirmed then L.string_ptr user.email_address else none;
    referred_by = ref;
    ethereum_address_bytes = if user.ethereum_confirmed then user.ethereum_address.value else none;
  }

  -- `formatUser`
  unfoldable pub format_user : {S : Sql} → UserPtr → Exec (World S) PbUser
  unfolding get_user referred_by pb_user
  format_user p = do
    user ← get_user p
    ref ← referred_by user.columns.referred_at.valid user.r
    pure (pb_user user.columns ref)

  -- The loop of `GetUsersByEthereumAddress`.
  unfoldable pub format_users : {S : Sql} → List UserPtr → Exec (World S) (List PbUser)
  unfolding format_user
  format_users [] = pure []
  format_users (p ∷ ps) = do u ← format_user p; us ← format_users ps; pure (u ∷ us)

-- codes.NotFound and codes.Internal; the second error is logged.
unfoldable pub query_status : Error → Error
unfolding is_no_rows
query_status e =
    if is_no_rows e
    then status_error 5 "No user with that ID found."
    else status_error 13 "Internal error."

module _ (E : Env) where
  open E use {sql as S, library as L}

  -- The three queries.
  abbrev pub id_query : String → Query
  id_query user_id = users (where_op eq UserWhere.id user_id ∷ load referring_user ∷ [])

  abbrev pub eth_addr_query : Bytes → Query
  eth_addr_query addr = users (
      where_eq_null UserWhere.ethereum_address (L.bytes_from addr)
      ∷ where_op eq UserWhere.ethereum_confirmed true
      ∷ load referring_user
      ∷ [])

  abbrev pub all_by_address_query : Bytes → Query
  all_by_address_query addr = users (
      where_op eq UserWhere.ethereum_confirmed true
      ∷ where_eq_null UserWhere.ethereum_address (L.bytes_from addr)
      ∷ load referring_user
      ∷ order_by "created_at DESC"
      ∷ [])

  -- `GetUser`
  unfoldable pub get_user_by_id : String → Exec (World S) PbUser
  unfolding users where_op one query_status format_user
  get_user_by_id user_id = do
    db_user ← wrapping query_status (one E reader (id_query user_id))
    format_user L db_user

  -- `GetUserByEthAddr`
  unfoldable pub get_user_by_eth_addr : Bytes → Exec (World S) PbUser
  unfolding users where_op where_eq_null one query_status format_user
  get_user_by_eth_addr addr = do
    db_user ← wrapping query_status (one E reader (eth_addr_query addr))
    format_user L db_user

  -- `GetUsersByEthereumAddress`; an error goes out as it is.
  unfoldable pub get_users_by_ethereum_address : Bytes → Exec (World S) (List PbUser)
  unfolding users where_op where_eq_null all_users format_users
  get_users_by_ethereum_address addr = do
    found ← all_users E reader (all_by_address_query addr)
    format_users L found
