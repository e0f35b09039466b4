-- ===== src/Controllers/Used.antt =====
-- internal/controllers/user_controller.go: `computeWeb3Used`.
pub mod Decides
use users_api.Base.{
  ℕ, Option, String, Bool, true, false, none, some, List, [], ◌∷◌, ◌==◌, string_eq, nat_eq,
  if◌then◌else◌,
}
use users_api.Go.Error.{wrap}
use users_api.Go.Result.{Attempt, done, failed}
use users_api.Go.Null.{bytes_len}
use users_api.Models.User.{Row}
use users_api.Controllers.Types.{UserDevice, AftermarketDevice, UserController}

-- `amd.TokenId != nil`
abbrev pub is_some : Option ℕ → Bool
is_some none = false
is_some (some _) = true

-- The loop over the vehicles.
unfoldable pub any_minted : List UserDevice → Bool
any_minted [] = false
any_minted (d ∷ ds) = let rest = any_minted ds in if is_some d.token_id then true else rest

-- The loop over the aftermarket devices.
unfoldable pub any_owned : List AftermarketDevice → Bool
any_owned [] = false
any_owned (d ∷ ds) =
    let rest = any_owned ds in if bytes_len d.owner_address == 20 then true else rest

module _ (C : UserController) where
  aftermarket_used : String → Attempt Bool
  unfolding any_owned
  aftermarket_used user_id = elim (C.list_aftermarket_devices user_id) [
    | done ams ↦ done (any_owned ams)
    | failed e ↦ failed (wrap e "couldn't retrieve user's aftermarket devices")
  ]

  devices_used : String → Attempt Bool
  unfolding any_minted aftermarket_used
  devices_used user_id = elim (C.list_user_devices user_id) [
    | done devices ↦ if any_minted devices then done true else aftermarket_used user_id
    | failed e ↦ failed (wrap e "couldn't retrieve user's vehicles")
  ]

  -- `computeWeb3Used`
  unfoldable pub compute_web3_used : Row → Attempt Bool
  unfolding devices_used
  compute_web3_used user =
      if user.auth_provider_id == "web3"
      then done true
      else if user.ethereum_confirmed
      then devices_used user.id
      else done false
