-- ===== src/Controllers/Types.antt =====
-- internal/controllers/user_controller.go, admin_handlers.go, handlers.go and
-- internal/config/settings.go: the records that the handlers take and answer with, and the services
-- that they call.
use users_api.Base.{ℕ, String, Bool, Option, List}
use users_api.Go.Result.{Attempt}
use users_api.Go.Null.{Null, Bytes, Time, Address}
use users_api.Models.Env.{Env}

pub record UserResponseEmail : Type 0 where
  pub address : Null String
  pub confirmed : Bool
  pub confirmation_sent_at : Null Time

pub record UserResponseWeb3 : Type 0 where
  pub address : Null String
  pub confirmed : Bool
  pub used : Bool
  pub in_app : Bool
  pub challenge_sent_at : Null Time

pub record UserResponse : Type 0 where
  pub id : String
  pub email : UserResponseEmail
  pub web3 : UserResponseWeb3
  pub migrated_at : Option Time
  pub created_at : Time
  pub country_code : Null String
  pub agreed_tos_at : Null Time
  pub referral_code : Null String
  pub referred_by : Null String
  pub referred_at : Null Time

pub record CheckEmailRequest : Type 0 where
  pub address : String

pub record CheckWallets : Type 0 where
  pub external : ℕ
  pub in_app : ℕ

pub record CheckEmailResponse : Type 0 where
  pub in_use : Bool
  pub wallets : CheckWallets

-- What a handler sends: a status and a JSON body, `ErrorResponse` being one, or a bare status.
pub data Reply : Type 0 where
  json_user : UserResponse → Reply
  json_check : CheckEmailResponse → Reply
  json_error : ℕ → String → Reply
  send_status : ℕ → Reply

-- The part of `Settings` that the handlers read; the other entries only name ports and addresses.
pub record Settings : Type 0 where
  pub environment : String
  pub vehicle_nft_addr : String
  pub ad_nft_addr : String
  pub token_addr : String
  pub main_rpc_url : String

-- devices-api: a vehicle with its token, if it was minted, and an aftermarket device.
pub record UserDevice : Type 0 where
  pub token_id : Option ℕ

pub record AftermarketDevice : Type 0 where
  pub owner_address : Bytes

-- A contract binding's `BalanceOf`.
abbrev pub BalanceOf : Type 0
BalanceOf = Address → Attempt ℕ

-- An Ethereum client and the contracts that are bound over it, by their addresses.
pub record Chain : Type 0 where
  pub multi_privilege : Address → BalanceOf
  pub token : Address → BalanceOf

-- `UserController`, and what its handlers reach: the generated models over an environment, the two
-- clients of devices-api, and `ethclient.Dial`.
pub record UserController : Type 1 where
  pub env : Env
  pub settings : Settings
  pub list_user_devices : String → Attempt (List UserDevice)
  pub list_aftermarket_devices : String → Attempt (List AftermarketDevice)
  pub dial : String → Attempt Chain
