-- ===== src/Go/Library.antt =====
-- Functions of third-party packages that the code calls for a value, as operations that nothing
-- here defines.
use users_api.Base.{ℕ, String, Bool, Option, List, string_eq}
use users_api.Go.Null.{Null, Bytes, Time, Address}

pub record Library : Type 0 where
  -- null.StringFrom, null.TimeFrom, null.TimeFromPtr(nil), null.BytesFrom
  pub string_from : String → Null String
  pub time_from : Time → Null Time
  pub null_time_of_nil : Null Time
  pub bytes_from : Bytes → Null Bytes
  -- null.String.Ptr, null.Time.Ptr
  pub string_ptr : Null String → Option String
  pub time_ptr : Null Time → Option Time
  -- common.BytesToAddress, common.Address.Hex, common.HexToAddress
  pub bytes_to_address : Bytes → Address
  pub address_hex : Address → String
  pub hex_to_address : String → Address
  -- queries.Equal and queries.IsNil at a foreign key, queries.Assign, queries.SetScanner(nil)
  pub key_equal : Null String → Null String → Bool
  pub key_equal_id : Null String → String → Bool
  pub key_is_nil : Null String → Bool
  pub key_assign : String → Null String
  pub key_nil : Null String
  -- strmangle.IdentQuote between the two quotes of the dialect, strmangle.Placeholders with indices
  -- from 1 on
  pub ident_quote : String → String → String → String
  pub placeholders : Bool → ℕ → String
  -- fmt's verb %q
  pub quote : String → String
  -- The order in which a loop ranges over the keys of a map, which Go leaves open.
  pub range_keys : List (Null String) → List (Null String)
  pub range_ids : List String → List String
  pub range_addresses : List (Address × Bool) → List (Address × Bool)
