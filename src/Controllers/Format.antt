-- ===== src/Controllers/Format.antt =====
-- internal/controllers/user_controller.go: `formatUser`.
use users_api.Base.{String, false, Option, none, some, if◌then◌else◌}
use users_api.Go.Exec.{Exec, pure, ◌>>=◌}
use users_api.Go.Null.{Null}
use users_api.Go.Library.{Library}
use users_api.Models.User.{UserPtr, UserR, User}
use users_api.Models.Sql.{Sql}
use users_api.Models.World.{World, get_user, get_optional}
use users_api.Controllers.Types.{UserResponse}

-- `var s null.String`
abbrev pub zero_string : Null String
zero_string = record { value = ""; valid = false }

module _ {S : Sql} where
  -- `user.R.ReferringUser` behind its two tests for nil.
  unfoldable pub referring_user_of : Option UserR → Exec (World S) (Option User)
  unfolding get_optional
  referring_user_of none = pure none
  referring_user_of (some r) = get_optional r.referring_user

module _ (L : Library) where
  unfoldable pub referrer : Option User → Null String
  referrer none = zero_string
  referrer (some ref) =
      if ref.ethereum_confirmed
      then L.string_from (L.address_hex (L.bytes_to_address ref.ethereum_address.value))
      else zero_string

  -- The record that `formatUser` builds; `Web3.Used` is filled in by the handlers.
  unfoldable pub user_response : User → Option User → UserResponse
  unfolding referrer
  user_response user ref = record {
    id = user.columns.id;
    email = record {
      address = user.email_address;
      confirmed = user.email_confirmed;
      confirmation_sent_at = user.email_confirmation_sent_at;
    };
    web3 = record {
      address = L.string_from (L.address_hex (L.bytes_to_address user.ethereum_address.value));
      confirmed = user.ethereum_confirmed;
      used = false;
      in_app = user.in_app_wallet;
      challenge_sent_at = user.ethereum_challenge_sent;
    };
    migrated_at = L.time_ptr user.columns.migrated_at;
    created_at = user.columns.created_at;
    country_code = user.columns.country_code;
    agreed_tos_at = user.columns.agreed_tos_at;
    referral_code = if user.ethereum_confirmed then user.columns.referral_code else zero_string;
    referred_by = referrer ref;
    referred_at = user.columns.referred_at;
  }

  -- `formatUser`
  unfoldable pub format_user : {S : Sql} → UserPtr → Exec (World S) UserResponse
  unfolding get_user referring_user_of user_response
  format_user p = do
    user ← get_user p
    ref ← referring_user_of user.r
    pure (user_response user ref)
