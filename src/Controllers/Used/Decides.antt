-- ===== src/Controllers/Used/Decides.antt =====
-- internal/controllers/user_controller.go: what `computeWeb3Used` decides.
use mathlib.Core.Bool.{false≢true}
use users_api.Base.{
  true, false, Option, none, some, List, [], ◌∷◌, ◌≡◌, refl, sym, ◌∙◌, ap, Bool-cases, inl, inr,
  ==→≡, ==_refl, ◌↔◌, ◌⊎◌, ◌≢◌, arith, ◌==◌, string_eq, nat_eq, ℕ,
}
use users_api.Go.Result.{done}
use users_api.Go.Null.{bytes_len}
use users_api.Models.User.{Row}
use users_api.Models.Laws.{In}
use users_api.Controllers.Types.{UserDevice, AftermarketDevice, UserController}
use users_api.Controllers.Used.{is_some, any_minted, any_owned, compute_web3_used}

-- A vehicle with a token, an aftermarket device with an owner's address of twenty bytes.
abbrev pub HasMinted : List UserDevice → Type 0
HasMinted ds = (d : UserDevice) × In d ds × (d.token_id ≢ none)

abbrev pub HasOwned : List AftermarketDevice → Type 0
HasOwned ds = (d : AftermarketDevice) × In d ds × (bytes_len d.owner_address ≡ 20)

is_some-ne-none : (o : Option ℕ) → (is_some o ≡ true) ↔ (o ≢ none)
is_some-ne-none none = (λ z. cc, λ n. absurd (n refl))
is_some-ne-none (some x) = (λ _ z. cc, λ _. refl)

any_minted-HasMinted : (ds : List UserDevice) → (any_minted ds ≡ true) ↔ HasMinted ds
unfolding any_minted
any_minted-HasMinted [] = (λ z. cc, λ (d, m, _). absurd m)
any_minted-HasMinted (d ∷ ds) = elim (Bool-cases (is_some d.token_id)) [
  | inl here ↦ (λ _. (d, inl refl, (is_some-ne-none d.token_id).0 here), λ _. rw here)
  | inr not ↦ (
    λ z.
        let rest : any_minted ds ≡ true = rw not at z in
        let (e, m, n) = (any_minted-HasMinted ds).0 rest in (e, inr m, n),
    λ (e, m, n). rw not ((any_minted-HasMinted ds).1 (later d ds e m n not)),
  )
]
  where
    later :
        (x : UserDevice) (xs : List UserDevice) (e : UserDevice)
        → In e (x ∷ xs)
        → e.token_id ≢ none
        → is_some x.token_id ≡ false
        → HasMinted xs
    later x xs e (inl same) n f =
        cc ((is_some-ne-none e.token_id).1 n, ap (λ (y : UserDevice). is_some y.token_id) same, f)
    later x xs e (inr m) n f = (e, m, n)

any_owned-HasOwned : (ds : List AftermarketDevice) → (any_owned ds ≡ true) ↔ HasOwned ds
unfolding any_owned
any_owned-HasOwned [] = (λ z. cc, λ (d, m, _). absurd m)
any_owned-HasOwned (d ∷ ds) = elim (Bool-cases (bytes_len d.owner_address == 20)) [
  | inl here ↦ (λ _. (d, inl refl, ==→≡ _ _ here), λ _. rw here)
  | inr not ↦ (
    λ z.
        let rest : any_owned ds ≡ true = rw not at z in
        let (e, m, n) = (any_owned-HasOwned ds).0 rest in (e, inr m, n),
    λ (e, m, n). rw not ((any_owned-HasOwned ds).1 (later d ds e m n not)),
  )
]
  where
    later :
        (x : AftermarketDevice) (xs : List AftermarketDevice) (e : AftermarketDevice)
        → In e (x ∷ xs)
        → bytes_len e.owner_address ≡ 20
        → (bytes_len x.owner_address == 20) ≡ false
        → HasOwned xs
    later x xs e (inl same) n f = absurd (
        false≢true (
          sym f
          ∙ rw (ap (λ (y : AftermarketDevice). bytes_len y.owner_address) (sym same) ∙ n)
              (==_refl {A = ℕ} 20)))
    later x xs e (inr m) n f = (e, m, n)

-- When both device services answer, the flag is true exactly for a user of the provider "web3", or
-- for one with a confirmed address who has a minted vehicle or an owned aftermarket device.
pub compute_web3_used_iff :
    (C : UserController) (user : Row) (vehicles : List UserDevice)
    (devices : List AftermarketDevice)
    → C.list_user_devices user.id ≡ done vehicles
    → C.list_aftermarket_devices user.id ≡ done devices
    → (compute_web3_used C user ≡ done true) ↔ (
        (user.auth_provider_id ≡ "web3")
        ⊎ (user.ethereum_confirmed ≡ true) × (HasMinted vehicles ⊎ HasOwned devices))
unfolding compute_web3_used
compute_web3_used_iff C user vehicles devices v a =
    ground (arith, v, a, any_minted-HasMinted vehicles, any_owned-HasOwned devices)
