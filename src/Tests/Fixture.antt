-- ===== src/Tests/Fixture.antt =====
-- The services and the data of the tests: one user, known by the token's subject and address.
use mathlib.Core.Option.{some-injective}
use users_api.Base.{
  ◌<>◌, ap, ℕ, true, false, not, Option, none, some, List, [], ◌∷◌, ◌&&◌, ◌==◌, inr, refl,
  string_eq, nat_eq, arith, if◌then◌else◌,
}
use users_api.Go.Error.{message}
use users_api.Go.Result.{done}
use users_api.Go.Null.{Null, null_eq, Bytes, Address}
use users_api.Go.Library.{Library}
use users_api.Models.User.{Column, Row, User, user_all_columns}
use users_api.Models.World.{Heap, World}
use users_api.Models.Hooks.{no_hooks}
use users_api.Models.Env.{Boil, Env}
use users_api.Models.Runs.{IsWf}
use users_api.Controllers.Types.{UserDevice, Chain, UserController}
use users_api.Controllers.Request.{Request, map_claims, claim_text}
use users_api.Cmd.Server.{Answer, other_answer, Middleware}
use users_api.Tests.Memory.{memory}

abbrev pub valid : {A : Type 0} → A → Null A
valid a = record { value = a; valid = true }

abbrev from_option : {A : Type 0} → A → Option A → Null A
from_option zero none = record { value = zero; valid = false }
from_option zero (some a) = valid a

abbrev to_option : {A : Type 0} → Null A → Option A
to_option n = if n.valid then some n.value else none

abbrev bytes_of : Bytes → List ℕ
bytes_of none = []
bytes_of (some bytes) = bytes

abbrev missing : {A : Type 0} → A → Null A
missing zero = record { value = zero; valid = false }

-- The twenty bytes of an address.
abbrev pub home : Address
home = 1 ∷ 2 ∷ 3 ∷ 4 ∷ 5 ∷ 6 ∷ 7 ∷ 8 ∷ 9 ∷ 10 ∷ 11 ∷ 12 ∷ 13 ∷ 14 ∷ 15 ∷ 16 ∷ 17 ∷ 18 ∷ 19 ∷ 20 ∷ []

abbrev pub library : Library
library = record {
  string_from = valid;
  time_from = valid;
  null_time_of_nil = missing 0;
  bytes_from = λ b. elim b [ none ↦ missing none | some bytes ↦ valid (some bytes) ];
  string_ptr = to_option;
  time_ptr = to_option;
  bytes_to_address = bytes_of;
  address_hex = λ a. "0x0102030405060708090A0b0c0d0e0F1011121314";
  hex_to_address = λ text. home;
  key_equal = λ m n. m == n;
  key_equal_id = λ m text. m.valid && m.value == text;
  key_is_nil = λ m. not m.valid;
  key_assign = valid;
  key_nil = missing "";
  ident_quote = λ lq rq text. lq <> (text <> rq);
  placeholders = λ indexed n. "";
  quote = λ text. text;
  range_keys = λ l. l;
  range_ids = λ l. l;
  range_addresses = λ l. l;
}

abbrev boil : Boil
boil = record {
  infer = record { kind = 1; cols = [] };
  whitelist = λ cols. record { kind = 2; cols = cols };
  is_whitelist = λ c. c.kind == 2;
  update_column_set = λ c all keys. Column.migrated_at ∷ [];
  set_complement = λ a b. a;
  set_intersect = λ a b. a;
  insert_column_set = λ c all with_default without_default nz. (user_all_columns, []);
  non_zero_default_set = λ columns row. columns;
}

abbrev pub env : Env
env = record {
  sql = memory;
  library = library;
  boil = boil;
  ctx = record { hooks_skipped = false; timestamps_skipped = false };
  hooks = no_hooks;
  now = 50;
}

abbrev pub chain : Chain
chain = record { multi_privilege = λ contract owner. done 1; token = λ contract owner. done 0 }

-- The controller whose client answers with the given devices.
abbrev pub controller : List UserDevice → UserController
controller devices = record {
  env = env;
  settings = record {
    environment = "dev";
    vehicle_nft_addr = "0x01";
    ad_nft_addr = "0x02";
    token_addr = "0x03";
    main_rpc_url = "http://localhost";
  };
  list_user_devices = λ user_id. done devices;
  list_aftermarket_devices = λ user_id. done (record { owner_address = some home } ∷ []);
  dial = λ url. done chain;
}

abbrev pub vehicle : UserDevice
vehicle = record { token_id = some 7 }

abbrev pub row : Row
row = record {
  id = "u1";
  email_address = valid "u1@example.com";
  email_confirmed = true;
  email_confirmation_sent_at = missing 0;
  email_confirmation_key = missing "";
  created_at = 3;
  country_code = valid "USA";
  ethereum_address = valid (some home);
  agreed_tos_at = missing 0;
  auth_provider_id = "google";
  ethereum_challenge = missing "";
  ethereum_challenge_sent = missing 0;
  ethereum_confirmed = true;
  in_app_wallet = true;
  referral_code = valid "ABCDEF";
  referred_at = missing 0;
  referring_user_id = missing "";
  migrated_at = missing 0;
}

abbrev empty_heap : Heap
empty_heap = record { next = 0; cell = λ p. none }

abbrev pub world_of : Option Row → World memory
world_of d = record {
  heap = empty_heap;
  db = d;
  update_cache = [];
  insert_cache = [];
  upsert_cache = [];
}

pub world_IsWf : (d : Option Row) → IsWf (world_of d).heap
world_IsWf d = record {
  allocated = λ p lt. absurd (omega (arith, lt));
  closed = λ p u r q e. cc (e);
}

-- A world with one object, whose relations are not loaded.
abbrev pub held_world : World memory
held_world = record {
  heap = record { next = 1; cell = λ p. some (record { columns = row; r = none }) };
  db = some row;
  update_cache = [];
  insert_cache = [];
  upsert_cache = [];
}

pub held_IsWf : IsWf held_world.heap
held_IsWf = record {
  allocated = λ p lt. (record { columns = row; r = none }, refl);
  closed = λ p u r q e loaded.
      cc (ap (λ (y : User). y.r) (some-injective (record { columns = row; r = none }) u e), loaded);
}

abbrev pub request : Request
request = record {
  user_local =
      some (map_claims (("sub", claim_text "u1") ∷ ("ethereum_address", claim_text "0x01") ∷ []));
  query = λ key. "";
  body = done (record { address = "u1@example.com" });
}

abbrev pub refusal : Answer
refusal = other_answer 401

abbrev pub middleware : Middleware
middleware = record {
  recovered = λ why. message why;
  authenticate = λ c. inr refusal;
  swagger_ui = λ c. other_answer 200;
}
