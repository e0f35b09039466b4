-- ===== src/Tests/Reads.antt =====
-- The theorems on the gRPC service and on the generated models at concrete inputs where their
-- hypotheses hold.
use users_api.Base.{
  true, none, some, List, [], ◌∷◌, ◌≡◌, refl, All, list_eq, nat_eq, string_eq, arith,
}
use users_api.Go.Error.{err_no_rows, is_no_rows, status_error}
use users_api.Go.Result.{err, done}
use users_api.Go.Exec.{◌>>◌, pure}
use users_api.Go.Null.{null_eq}
use users_api.Models.User.{Row}
use users_api.Models.Where.{where_op, where_eq_null}
use users_api.Models.Sql.{reader, writer}
use users_api.Models.Select.{users, one, all_users}
use users_api.Models.Laws.{In, SameNull}
use users_api.Models.Runs.{Runs, HasR}
use users_api.Api.Users.{
  get_user_by_id, get_user_by_eth_addr, get_users_by_ethereum_address, all_by_address_query,
  id_query, eth_addr_query,
}
use users_api.Api.Shown.{Shows}
use users_api.Api.Answers.{
  get_user_by_id-Shows, get_user_by_eth_addr-Shows, get_users_by_ethereum_address-ShowsAll,
  get_user-failed, ShowsAll, limited,
}
use users_api.Models.Load.{load_referring_user_slice}
use users_api.Controllers.GetUser.{by_id_query}
use users_api.Models.Runs.Referrers.{SliceFails, load_referring_user_slice-Runs}
use users_api.Models.Runs.Finish.{Found, one-Runs, AllFound, all_users-Runs}
use users_api.Tests.Fixture.{held_world, held_IsWf, home, library, env, row, world_of, world_IsWf}
use users_api.Models.Hooks.{before_delete_hook, add_user_hook, no_hooks}
use users_api.Models.Hooks.Order.{do_hooks, do_hooks-add_user_hook}
use users_api.Controllers.Answers.{by_id_limited}
use users_api.Models.Runs.Reasons.{OneFails, AllFails}
use users_api.Tests.Memory.{memory, memory_lawful}

get_user_by_id-Shows_example :
    Runs
      (OneFails env reader (limited (id_query env "u1")) (some row))
      (world_of (some row))
      (get_user_by_id env "u1" (world_of (some row)))
      (λ out _. (out.id ≡ "u1") × ((shown : Row) × In shown (row ∷ []) × Shows shown out))
get_user_by_id-Shows_example =
    get_user_by_id-Shows env refl memory_lawful "u1" (world_of (some row)) (world_IsWf (some row))

get_user_by_eth_addr-Shows_example :
    Runs
      (OneFails env reader (limited (eth_addr_query env (some home))) (some row))
      (world_of (some row))
      (get_user_by_eth_addr env (some home) (world_of (some row)))
      (λ out _.
        (shown : Row) × In shown (row ∷ [])
        × (shown.ethereum_confirmed ≡ true)
        × SameNull shown.ethereum_address (library.bytes_from (some home))
        × Shows shown out)
get_user_by_eth_addr-Shows_example =
    get_user_by_eth_addr-Shows env refl memory_lawful (some home) (world_of (some row))
      (world_IsWf (some row))

get_users_by_ethereum_address-ShowsAll_example :
    Runs
      (AllFails env reader (all_by_address_query env (some home)) (some row))
      (world_of (some row))
      (get_users_by_ethereum_address env (some home) (world_of (some row)))
      (λ outs _.
        (rows : List Row) × (memory.bind_all reader
            (all_by_address_query env (some home))
            (some row)
          ≡ done rows)
        × ShowsAll env refl rows outs
        × All
            (λ shown.
              (shown.ethereum_confirmed ≡ true)
              × SameNull shown.ethereum_address (library.bytes_from (some home)))
            rows)
get_users_by_ethereum_address-ShowsAll_example =
    get_users_by_ethereum_address-ShowsAll env refl memory_lawful (some home) (world_of (some row))
      (world_IsWf (some row))

get_user-failed_example :
    (get_user_by_id env "u2" (world_of none)
      ≡ (err (status_error 5 "No user with that ID found."), world_of none))
    × (get_user_by_eth_addr env (some home) (world_of none)
        ≡ (err (status_error 5 "No user with that ID found."), world_of none))
unfolding is_no_rows
get_user-failed_example =
    get_user-failed env "u2" (some home) (world_of none) err_no_rows err_no_rows refl refl

do_hooks-add_user_hook_example :
    do_hooks before_delete_hook env.ctx
      (add_user_hook before_delete_hook (λ conn o. pure tt) (no_hooks {S = memory}))
      writer
      0
      (world_of none)
    ≡ (do_hooks before_delete_hook env.ctx (no_hooks {S = memory}) writer 0 >> pure tt)
        (world_of none)
do_hooks-add_user_hook_example =
    do_hooks-add_user_hook before_delete_hook (λ conn o. pure tt) env.ctx (no_hooks {S = memory})
      writer 0 (world_of none) refl

load_referring_user_slice-Runs_example :
    Runs
      (SliceFails env refl held_world reader (0 ∷ []))
      held_world
      (load_referring_user_slice env reader (0 ∷ []) held_world)
      (λ _ v. All (HasR v.heap) (0 ∷ []))
load_referring_user_slice-Runs_example =
    load_referring_user_slice-Runs env refl held_world held_IsWf reader (0 ∷ []) (omega arith, tt)

one-Runs_example :
    Runs
      (OneFails env reader (by_id_limited "u1") (some row))
      (world_of (some row))
      (one env reader (by_id_query "u1") (world_of (some row)))
      (Found env reader (by_id_limited "u1") (world_of (some row)))
unfolding users where_op
one-Runs_example =
    one-Runs env refl (world_of (some row)) (world_IsWf (some row)) reader (by_id_query "u1") tt

all_users-Runs_example :
    Runs
      (AllFails env reader (all_by_address_query env (some home)) (some row))
      (world_of (some row))
      (all_users env reader (all_by_address_query env (some home)) (world_of (some row)))
      (AllFound env refl reader (all_by_address_query env (some home)) (world_of (some row)))
unfolding users where_op where_eq_null
all_users-Runs_example =
    all_users-Runs env refl (world_of (some row)) (world_IsWf (some row)) reader
      (all_by_address_query env (some home)) tt
