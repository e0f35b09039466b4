-- ===== src/Tests/Witnesses.antt =====
-- The theorems on the HTTP handlers and the server at concrete inputs where their hypotheses hold.
use users_api.Controllers.Answers.{by_id_limited, ByIdFails, get_user_v2-Details}
use users_api.Controllers.Confirmed.{MissesNone, get_user_by_eth-confirmed}
use users_api.Tests.Table.{table, table_lawful}
use users_api.Tests.Fixture.{
  env, home, library, controller, vehicle, row, world_of, world_IsWf, request, refusal, middleware,
}
use users_api.Models.World.{World}
use users_api.Models.Hooks.{no_hooks}
use users_api.Controllers.Types.{UserController, UserResponse, json_user, CheckWallets, json_error}
use users_api.Models.Runs.Reasons.{OneFails}
use mathlib.Core.List.{Perm}
use mathlib.Core.List.Perm.{swap as perm_swap}
use users_api.Base.{
  Bool, true, false, none, some, [], ◌∷◌, ◌≡◌, refl, ◌⊎◌, inl, inr, ◌↔◌, list_eq, nat_eq, string_eq,
  List, map, ◌&&◌, ◌==◌, if◌then◌else◌,
}
use users_api.Go.Error.{err_no_rows, is_no_rows}
use users_api.Go.Result.{ok, Attempt, done, failed}
use users_api.Go.Null.{null_eq, Address}
use users_api.Models.User.{Row, column_value, Column}
use users_api.Models.Where.{where_op}
use users_api.Models.Sql.{reader, in_tx, writer, delete_id, update_columns}
use users_api.Models.Select.{users, find_query}
use users_api.Models.Laws.{In, SameNull}
use users_api.Models.Runs.{Runs, Ends, Holds, HasColumns}
use users_api.Controllers.Request.{get_user_id, get_user_eth_addr, get_claims}
use users_api.Controllers.GetUser.{get_user_v1, get_user_v2, get_user_by_eth}
use users_api.Models.Write.{update_whitelist}
use users_api.Controllers.SetMigrated.{set_migrated}
use users_api.Controllers.SetMigrated.Writes.{updated_columns, IsWritten, set_migrated-IsWritten}
use users_api.Controllers.Shown.{Details}
use users_api.Controllers.Preferred.{Eligible, get_user_v1-Details}
use users_api.Controllers.DeleteUser.{delete_user}
use users_api.Controllers.DeleteUser.Effects.{IsRefusal, delete_user-IsRefusal}
use users_api.Controllers.DeleteUser.Commits.{committed, delete_user-committed}
use users_api.Controllers.Used.{compute_web3_used}
use users_api.Controllers.Used.Decides.{HasMinted, HasOwned, compute_web3_used_iff}
use users_api.Controllers.CheckEmail.{Statuses, lookup, in_app_statuses, count_used, count_address}
use users_api.Controllers.CheckEmail.Statuses.{lookup-in_app_statuses}
use users_api.Controllers.CheckEmail.Counts.{used_external, used_in_app, count_used_order}
use users_api.Cmd.Server.{
  routes, delete, get_user_v2_handler, get_user_handler, delete_user_handler, set_migrated_handler,
  serve, run_settled, error_map, handled,
}
use users_api.Cmd.Server.Failures.{
  serve-refused, read_failed-answers, missing_text, deprecated_text,
}
use users_api.Tests.Memory.{memory, memory_lawful}

user_id_of_request : get_user_id request ≡ ok "u1"
unfolding get_user_id get_claims string_eq
user_id_of_request = refl

address_of_request : get_user_eth_addr library request ≡ ok (some home)
unfolding get_user_eth_addr get_claims string_eq
address_of_request = refl

get_user_v1-Details_example :
    Ends
      (ByIdFails (controller []) "u1" (some row))
      (world_of (some row))
      (get_user_v1 (controller []) request (world_of (some row)))
      (λ a _.
        (out : UserResponse) × (shown : Row) × (a ≡ json_user out)
        × In shown (row ∷ [])
        × Eligible (controller []) refl memory_lawful (some home) "u1" shown
        × Details (controller []) (record shown { id = "u1" }) out)
get_user_v1-Details_example =
    get_user_v1-Details (controller []) refl memory_lawful (world_of (some row)) request "u1"
      (some home) (world_IsWf (some row)) user_id_of_request address_of_request

get_user_v2-Details_example :
    Runs
      (ByIdFails (controller []) "u1" (some row))
      (world_of (some row))
      (get_user_v2 (controller []) request (world_of (some row)))
      (λ a _.
        (out : UserResponse) × (shown : Row) × (a ≡ json_user out)
        × (out.id ≡ "u1")
        × In shown (row ∷ [])
        × Details (controller []) shown out)
get_user_v2-Details_example =
    get_user_v2-Details (controller []) refl memory_lawful (world_of (some row)) request "u1"
      (world_IsWf (some row)) user_id_of_request

delete_user-IsRefusal_example :
    Holds
      (delete_user (controller (vehicle ∷ [])) request (world_of (some row))).0
      (OneFails (controller (vehicle ∷ [])).env (in_tx tt) (find_query "u1") (some row))
      IsRefusal
    × ((delete_user (controller (vehicle ∷ [])) request (world_of (some row))).1.db ≡ some row)
delete_user-IsRefusal_example =
    delete_user-IsRefusal (controller (vehicle ∷ [])) refl (world_of (some row)) request "u1" tt
      (some row) (world_IsWf (some row)) user_id_of_request (λ p. cc p) refl

found_row : memory.bind_one (in_tx tt) (find_query "u1") (some row) ≡ done row
unfolding column_value string_eq
found_row = refl

executed_delete : memory.exec writer (delete_id "u1") (some row) ≡ (done (done 1), none)
unfolding string_eq
executed_delete = refl

delete_user-committed_example :
    ((delete_user (controller []) request (world_of (some row))).0 ≡ ok (committed (done tt)))
    × ((delete_user (controller []) request (world_of (some row))).1.db ≡ none)
delete_user-committed_example =
    delete_user-committed (controller []) (world_of (some row)) request "u1" tt (some row) none row
      1 refl user_id_of_request refl found_row refl executed_delete

compute_web3_used_iff_example : (compute_web3_used (controller (vehicle ∷ [])) row ≡ done true) ↔ (
    (row.auth_provider_id ≡ "web3")
    ⊎ (row.ethereum_confirmed ≡ true)
      × (HasMinted (vehicle ∷ []) ⊎ HasOwned (record { owner_address = some home } ∷ [])))
compute_web3_used_iff_example =
    compute_web3_used_iff (controller (vehicle ∷ [])) row (vehicle ∷ [])
      (record { owner_address = some home } ∷ []) refl refl

lookup-in_app_statuses_example :
    lookup home (in_app_statuses library (row ∷ row ∷ []) []) ≡ some true
unfolding list_eq nat_eq
lookup-in_app_statuses_example = lookup-in_app_statuses library home (row ∷ row ∷ [])

abbrev two_statuses : Statuses
two_statuses = (home, true) ∷ (7 ∷ [], false) ∷ []

abbrev swapped_statuses : Statuses
swapped_statuses = (7 ∷ [], false) ∷ (home, true) ∷ []

abbrev one_each : CheckWallets
one_each = record { external = 1; in_app = 1 }

abbrev always_used : Address → Bool → Attempt Bool
always_used a in_app = done true

counted_two :
    count_used always_used two_statuses (record { external = 0; in_app = 0 })
    ≡ done (record { external = 1; in_app = 1 })
unfolding count_used count_address
counted_two = refl

swap_statuses : Perm two_statuses swapped_statuses
swap_statuses = perm_swap (7 ∷ [], false) (home, true) []

count_used_order_example :
    (one_each ≡ record {
      external = used_external always_used two_statuses;
      in_app = used_in_app always_used two_statuses;
    })
    × (count_used always_used swapped_statuses (record { external = 0; in_app = 0 })
        ≡ done (record { external = 1; in_app = 1 }))
count_used_order_example =
    count_used_order always_used two_statuses swapped_statuses one_each swap_statuses counted_two

serve-refused_example :
    serve middleware
      (controller [])
      (record {
        method = delete;
        group = "/v1/user";
        path = "/";
        auth = true;
        handler = delete_user_handler;
      })
      request
      (world_of (some row))
    ≡ (refusal, world_of (some row))
unfolding routes
serve-refused_example =
    serve-refused middleware (controller [])
      (record {
        method = delete;
        group = "/v1/user";
        path = "/";
        auth = true;
        handler = delete_user_handler;
      })
      request refusal (world_of (some row)) (inr (inr (inr (inr (inr (inl refl)))))) refl refl

missing_row : memory.bind_one reader (by_id_limited "u1") none ≡ failed err_no_rows
unfolding users
missing_row = refl

read_failed-answers_example :
    (run_settled middleware (controller []) get_user_v2_handler request (world_of none)
      ≡ (error_map 404 (missing_text middleware (controller []) "u1"), world_of none))
    × (run_settled middleware (controller []) get_user_handler request (world_of none)
        ≡ (error_map 404 (deprecated_text middleware (controller []) "u1"), world_of none))
    × (run_settled middleware (controller []) set_migrated_handler request (world_of none) ≡ (
      handled (json_error 500 (deprecated_text middleware (controller []) "u1")),
      world_of none,
    ))
unfolding is_no_rows
read_failed-answers_example =
    read_failed-answers middleware (controller []) request "u1" (world_of none) err_no_rows
      user_id_of_request missing_row

-- Two users of one address, the first without a confirmed e-mail.
abbrev rows_of_home : List Row
rows_of_home = record row { id = "u0"; email_confirmed = false } ∷ row ∷ []

abbrev table_controller : UserController
table_controller = record (controller []) { env = record env { sql = table; hooks = no_hooks } }

abbrev table_world : World table
table_world = record {
  heap = (world_of none).heap;
  db = rows_of_home;
  update_cache = [];
  insert_cache = [];
  upsert_cache = [];
}

get_user_by_eth-confirmed_example :
    Runs
      (MissesNone table_controller refl table_lawful table_world home)
      table_world
      (get_user_by_eth table_controller home table_world)
      (λ p v.
        (shown : Row) × HasColumns v.heap p shown
        × In shown rows_of_home
        × SameNull shown.ethereum_address (library.bytes_from (some home))
        × (shown.email_confirmed ≡ true))
get_user_by_eth-confirmed_example =
    get_user_by_eth-confirmed table_controller refl table_lawful table_world home row
      (world_IsWf none) (inr (inl refl)) (refl, λ z. refl) refl

migrated_at_updated : In Column.migrated_at (updated_columns (controller []))
unfolding update_whitelist nat_eq
migrated_at_updated = inl refl

found_by_id : memory.bind_one reader (by_id_limited "u1") (some row) ≡ done row
unfolding users where_op column_value string_eq
found_by_id = refl

abbrev migrated_row : Row
migrated_row = record row { migrated_at = record { value = 50; valid = true } }

written_row :
    memory.exec writer
      (update_columns
        (updated_columns (controller []))
        (map
          (λ col. column_value col (record row {
            migrated_at =
                if (controller []).settings.environment == "dev" && request.query "clear" == "true"
                then library.null_time_of_nil
                else library.time_from 50;
          }))
          (updated_columns (controller [])))
        "u1")
      (some row)
    ≡ (done (done 1), some migrated_row)
unfolding update_whitelist nat_eq column_value string_eq
written_row = refl

set_migrated-IsWritten_example :
    IsWritten
      (controller [])
      (world_of (some row))
      row
      (some migrated_row)
      (set_migrated (controller []) request (world_of (some row)))
set_migrated-IsWritten_example =
    set_migrated-IsWritten (controller []) (world_of (some row)) request "u1" row 1
      (some migrated_row) refl (world_IsWf (some row)) tt user_id_of_request found_by_id
      migrated_at_updated written_row
