-- ===== src/Models/User.antt =====
-- models/users.go: the `users` table, its columns and the objects that hold its rows.
use users_api.Base.{ℕ, String, ◌<>◌, Bool, Option, none, List, [], ◌∷◌}
use users_api.Go.Null.{Null, Bytes, Time}

-- The columns of `userAllColumns`.
pub data Column : Type 0 where
  id email_address email_confirmed email_confirmation_sent_at email_confirmation_key : Column
  created_at country_code ethereum_address agreed_tos_at auth_provider_id : Column
  ethereum_challenge ethereum_challenge_sent ethereum_confirmed in_app_wallet : Column
  referral_code referred_at referring_user_id migrated_at : Column

pub Column-discrete : Discrete Column
Column-discrete = hlevel

-- `UserColumns`
unfoldable pub column_name : Column → String
column_name id = "id"
column_name email_address = "email_address"
column_name email_confirmed = "email_confirmed"
column_name email_confirmation_sent_at = "email_confirmation_sent_at"
column_name email_confirmation_key = "email_confirmation_key"
column_name created_at = "created_at"
column_name country_code = "country_code"
column_name ethereum_address = "ethereum_address"
column_name agreed_tos_at = "agreed_tos_at"
column_name auth_provider_id = "auth_provider_id"
column_name ethereum_challenge = "ethereum_challenge"
column_name ethereum_challenge_sent = "ethereum_challenge_sent"
column_name ethereum_confirmed = "ethereum_confirmed"
column_name in_app_wallet = "in_app_wallet"
column_name referral_code = "referral_code"
column_name referred_at = "referred_at"
column_name referring_user_id = "referring_user_id"
column_name migrated_at = "migrated_at"

-- `UserTableColumns`
unfoldable pub table_column_name : Column → String
unfolding column_name
table_column_name c = "users." <> column_name c

abbrev pub user_all_columns : List Column
user_all_columns =
    id ∷ email_address ∷ email_confirmed ∷ email_confirmation_sent_at ∷ email_confirmation_key
    ∷ created_at ∷ country_code ∷ ethereum_address ∷ agreed_tos_at ∷ auth_provider_id
    ∷ ethereum_challenge ∷ ethereum_challenge_sent ∷ ethereum_confirmed ∷ in_app_wallet
    ∷ referral_code ∷ referred_at ∷ referring_user_id ∷ migrated_at ∷ []

abbrev pub user_columns_without_default : List Column
user_columns_without_default =
    id ∷ email_confirmed ∷ created_at ∷ auth_provider_id ∷ ethereum_confirmed ∷ []

abbrev pub user_columns_with_default : List Column
user_columns_with_default =
    email_address ∷ email_confirmation_sent_at ∷ email_confirmation_key ∷ country_code
    ∷ ethereum_address ∷ agreed_tos_at ∷ ethereum_challenge ∷ ethereum_challenge_sent
    ∷ in_app_wallet ∷ referral_code ∷ referred_at ∷ referring_user_id ∷ migrated_at ∷ []

abbrev pub user_primary_key_columns : List Column
user_primary_key_columns = id ∷ []

-- A column's value: an argument of a statement, or what a `where` compares with.
pub data Value : Type 0 where
  text : String → Value
  null_text : Null String → Value
  flag : Bool → Value
  timestamp : Time → Value
  null_time : Null Time → Value
  null_bytes : Null Bytes → Value

-- The fields of `User` that are columns.
pub record Row : Type 0 where
  pub id : String
  pub email_address : Null String
  pub email_confirmed : Bool
  pub email_confirmation_sent_at : Null Time
  pub email_confirmation_key : Null String
  pub created_at : Time
  pub country_code : Null String
  pub ethereum_address : Null Bytes
  pub agreed_tos_at : Null Time
  pub auth_provider_id : String
  pub ethereum_challenge : Null String
  pub ethereum_challenge_sent : Null Time
  pub ethereum_confirmed : Bool
  pub in_app_wallet : Bool
  pub referral_code : Null String
  pub referred_at : Null Time
  pub referring_user_id : Null String
  pub migrated_at : Null Time

-- A `*User` is an address of the heap.
abbrev pub UserPtr : Type 0
UserPtr = ℕ

-- `userR`: the objects that were loaded over the relationship, by pointer.
pub record UserR : Type 0 where
  pub referring_user : Option UserPtr
  pub referring_user_users : List UserPtr

-- `&userR{}`
abbrev pub empty_r : UserR
empty_r = record { referring_user = none; referring_user_users = [] }

pub record User : Type 0 where
  pub columns : Row
  pub open columns use *
  pub r : Option UserR

-- The value of a column, as the struct tags of `User` map fields to columns.
unfoldable pub column_value : Column → Row → Value
column_value Column.id u = text u.id
column_value Column.email_address u = null_text u.email_address
column_value Column.email_confirmed u = flag u.email_confirmed
column_value Column.email_confirmation_sent_at u = null_time u.email_confirmation_sent_at
column_value Column.email_confirmation_key u = null_text u.email_confirmation_key
column_value Column.created_at u = timestamp u.created_at
column_value Column.country_code u = null_text u.country_code
column_value Column.ethereum_address u = null_bytes u.ethereum_address
column_value Column.agreed_tos_at u = null_time u.agreed_tos_at
column_value Column.auth_provider_id u = text u.auth_provider_id
column_value Column.ethereum_challenge u = null_text u.ethereum_challenge
column_value Column.ethereum_challenge_sent u = null_time u.ethereum_challenge_sent
column_value Column.ethereum_confirmed u = flag u.ethereum_confirmed
column_value Column.in_app_wallet u = flag u.in_app_wallet
column_value Column.referral_code u = null_text u.referral_code
column_value Column.referred_at u = null_time u.referred_at
column_value Column.referring_user_id u = null_text u.referring_user_id
column_value Column.migrated_at u = null_time u.migrated_at
