-- ===== src/Controllers/CheckEmail.antt =====
-- internal/controllers/admin_handlers.go: `CheckEmail`.
pub mod Counts
pub mod Statuses
use users_api.Base.{
  ℕ, ◌+◌, Bool, true, false, not, List, [], ◌∷◌, ◌==◌, nat_eq, list_eq, String, if◌then◌else◌,
  Option, none, some,
}
use users_api.Go.Error.{wrap, fiber_error}
use users_api.Go.Result.{Attempt, done, failed, attempt}
use users_api.Go.Exec.{Exec, pure, lift, wrapping, ◌>>=◌}
use users_api.Go.Null.{bytes_len, Address}
use users_api.Models.User.{Row, UserPtr}
use users_api.Models.Where.{where_op, eq, where_eq_null, is_not_null}
use users_api.Models.UserWhere
use users_api.Models.Sql.{reader, Query, Sql}
use users_api.Models.World.{World, get_user}
use users_api.Models.Select.{users, all_users}
use users_api.Go.Library.{Library}
use users_api.Controllers.Types.{
  CheckEmailResponse, CheckWallets, Chain, BalanceOf, Reply, json_check, UserController,
}
use users_api.Controllers.Request.{Request}

-- The map `addrsInAppStatus`, each address once.
abbrev pub Statuses : Type 0
Statuses = List (Address × Bool)

unfoldable pub lookup : Address → Statuses → Option Bool
lookup a [] = none
lookup a ((b, in_app) ∷ m) = if a == b then some in_app else lookup a m

unfoldable pub insert : Address → Bool → Statuses → Statuses
insert a in_app [] = (a, in_app) ∷ []
insert a in_app ((b, x) ∷ m) = if a == b then (a, in_app) ∷ m else (b, x) ∷ insert a in_app m

-- `nonZero`
unfoldable pub non_zero : ℕ → Bool
non_zero n = not (n == 0)

module _ (L : Library) where
  -- A known address becomes an in-app address if one of its users says so.
  abbrev pub note_known : Option Bool → Address → Bool → Statuses → Statuses
  note_known (some _) addr in_app m = if in_app then insert addr true m else m
  note_known none addr in_app m = insert addr in_app m

  -- The body of the loop over the users; an address of another length is skipped with a warning.
  unfoldable pub note_user : Row → Statuses → Statuses
  unfolding lookup insert
  note_user user m =
      if bytes_len user.ethereum_address.value == 20
      then (let addr = L.bytes_to_address user.ethereum_address.value in
          note_known (lookup addr m) addr user.in_app_wallet m)
      else m

  unfoldable pub in_app_statuses : List Row → Statuses → Statuses
  unfolding note_user
  in_app_statuses [] m = m
  in_app_statuses (user ∷ rows) m = in_app_statuses rows (note_user user m)

-- One of the three tests: an error ends the function, a balance answers, otherwise it goes on.
unfoldable pub balance_or : Attempt ℕ → Attempt Bool → Attempt Bool
unfolding non_zero
balance_or (done balance) rest = if non_zero balance then done true else rest
balance_or (failed e) rest = failed e

-- The function literal that looks at the chain for one address.
unfoldable pub address_used : BalanceOf → BalanceOf → BalanceOf → Address → Bool → Attempt Bool
unfolding balance_or
address_used v ad tdone addr in_app =
    balance_or (v addr)
      (balance_or (ad addr) (if in_app then balance_or (tdone addr) (done false) else done false))

-- `usedInApp++` or `usedExternal++`
unfoldable pub count_address : Bool → Bool → CheckWallets → CheckWallets
count_address used in_app n =
    if used
    then (if in_app
        then record n { in_app = n.in_app + 1 }
        else record n { external = n.external + 1 })
    else n

-- `if err != nil { return fmt.Errorf(...) }`
abbrev pub or_chain_error {ℓ} : {A : Type ℓ} → Attempt Bool → (Bool → Attempt A) → Attempt A
or_chain_error (done b) f = f b
or_chain_error (failed e) f = failed (wrap e "error checking chain")

-- The loop over the map.
unfoldable pub count_used :
    (Address → Bool → Attempt Bool) → Statuses → CheckWallets → Attempt CheckWallets
unfolding count_address
count_used used [] n = done n
count_used used ((addr, in_app) ∷ m) n =
    or_chain_error (used addr in_app) (λ b. count_used used m (count_address b in_app n))

module _ {S : Sql} where
  -- The columns of the objects, in order.
  unfoldable pub get_rows : List UserPtr → Exec (World S) (List Row)
  unfolding get_user
  get_rows [] = pure []
  get_rows (p ∷ ps) = do u ← get_user p; rows ← get_rows ps; pure (u.columns ∷ rows)

module _ (C : UserController) where
  open C.env use {sql as S, library as L}

  abbrev pub email_query : String → Query
  email_query address = users (
      where_eq_null UserWhere.email_address (L.string_from address)
      ∷ where_op eq UserWhere.email_confirmed true
      ∷ where_op eq UserWhere.ethereum_confirmed true
      ∷ is_not_null UserWhere.ethereum_address
      ∷ [])

  -- The three contracts that are asked, bound over the client.
  unfoldable pub used_on : Chain → Address → Bool → Attempt Bool
  unfolding address_used
  used_on chain =
      address_used (chain.multi_privilege (L.hex_to_address C.settings.vehicle_nft_addr))
        (chain.multi_privilege (L.hex_to_address C.settings.ad_nft_addr))
        (chain.token (L.hex_to_address C.settings.token_addr))

  abbrev pub check_response : CheckWallets → CheckEmailResponse
  check_response n = record { in_use = not (n.in_app + n.external == 0); wallets = n }

  -- `CheckEmail`
  unfoldable pub check_email : Request → Exec (World S) Reply
  unfolding users where_op where_eq_null is_not_null all_users get_rows in_app_statuses used_on
      count_used
  check_email c = do
    cer ← wrapping (λ _. fiber_error 400 "Couldn't parse body.") (lift (attempt c.body))
    found ← all_users C.env reader (email_query cer.address)
    client ← lift (attempt (C.dial C.settings.main_rpc_url))
    rows ← get_rows found
    n ← lift (
        attempt (
          count_used (used_on client) (L.range_addresses (in_app_statuses L rows []))
            (record { external = 0; in_app = 0 })))
    pure (json_check (check_response n))
