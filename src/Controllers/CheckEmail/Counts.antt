-- ===== src/Controllers/CheckEmail/Counts.antt =====
-- internal/controllers/admin_handlers.go: what the loop over the map counts, whatever its order.
use mathlib.Core.Logic.{∥∥₁_elim}
use mathlib.Core.Path.{subst}
use mathlib.Core.HLevel.{hedberg}
use mathlib.Core.List.{Perm, Permᴰ}
use users_api.Base.{
  String, string_eq, ℕ, ◌+◌, Bool, true, false, ◌&&◌, not, List, [], ◌∷◌, ◌≡◌, refl, sym, ap, ◌∙◌,
  arith,
}
use users_api.Go.Result.{Attempt, done, failed}
use users_api.Go.Null.{Address}
use users_api.Controllers.Types.{CheckWallets}
use users_api.Controllers.CheckEmail.{Statuses, count_address, count_used, or_chain_error}

-- The independent description: how many in-app, and how many external addresses are used.
abbrev pub answer : Attempt Bool → Bool
answer (done b) = b
answer (failed e) = false

abbrev pub one_if : Bool → ℕ
one_if true = 1
one_if false = 0

abbrev pub sum_of : {A : Type 0} → (A → ℕ) → List A → ℕ
sum_of f [] = 0
sum_of f (x ∷ xs) = f x + sum_of f xs

sum_of-perm : {A : Type 0} (f : A → ℕ) {xs ys : List A} → Permᴰ xs ys → sum_of f xs ≡ sum_of f ys
sum_of-perm f Permᴰ.nil = refl
sum_of-perm f (Permᴰ.cons e d) = omega (arith, ap f e, sum_of-perm f d)
sum_of-perm f (Permᴰ.swap e g) = omega (arith, ap f e, ap f g)
sum_of-perm f (Permᴰ.trans d e) = sum_of-perm f d ∙ sum_of-perm f e

String-set : IsSet String
String-set = hedberg string_eq.dec

Attempt-set : IsSet (Attempt CheckWallets)
Attempt-set = hlevel String-set

module _ (used : Address → Bool → Attempt Bool) where
  abbrev pub in_app_one : Address × Bool → ℕ
  in_app_one (a, b) = one_if (b && answer (used a b))

  abbrev pub external_one : Address × Bool → ℕ
  external_one (a, b) = one_if (not b && answer (used a b))

  abbrev pub used_in_app : Statuses → ℕ
  used_in_app = sum_of in_app_one

  abbrev pub used_external : Statuses → ℕ
  used_external = sum_of external_one

  abbrev Answers : Address × Bool → Type 0
  Answers (a, b) = used a b ≡ done (answer (used a b))

  -- Every test of the map succeeds.
  abbrev pub AllAnswer : Statuses → Type 0
  AllAnswer [] = Unit
  AllAnswer (e ∷ m) = Answers e × AllAnswer m

  -- The counts of the addresses, on top of what was counted before.
  abbrev pub totals : CheckWallets → Statuses → CheckWallets
  totals n m = record { external = n.external + used_external m; in_app = n.in_app + used_in_app m }

  totals-count_address :
      (a : Address) (b u : Bool) (n : CheckWallets) (m : Statuses)
      → used a b ≡ done u
      → totals (count_address u b n) m ≡ totals n ((a, b) ∷ m)
  unfolding count_address
  totals-count_address a true true n m e = ground (arith, ap answer e)
  totals-count_address a true false n m e = ground (arith, ap answer e)
  totals-count_address a false true n m e = ground (arith, ap answer e)
  totals-count_address a false false n m e = ground (arith, ap answer e)

  count_used-totals :
      (m : Statuses) (n : CheckWallets) → AllAnswer m → count_used used m n ≡ done (totals n m)
  unfolding count_used
  count_used-totals [] n h = ground arith
  count_used-totals ((a, b) ∷ m) n h =
      let u = answer (used a b) in
      rw h.0 (
        count_used-totals m (count_address u b n) h.1
        ∙ ap done (totals-count_address a b u n m h.0))

  count_used-AllAnswer :
      (m : Statuses) (n x : CheckWallets) → count_used used m n ≡ done x → AllAnswer m
  unfolding count_used
  count_used-AllAnswer [] n x h = tt
  count_used-AllAnswer ((a, b) ∷ m) n x h =
      answered (used a b) refl h (λ u. count_used-AllAnswer m (count_address u b n) x)
    where
      answered :
          (r : Attempt Bool)
          → used a b ≡ r
          → or_chain_error r (λ u. count_used used m (count_address u b n)) ≡ done x
          → ((u : Bool) → count_used used m (count_address u b n) ≡ done x → AllAnswer m)
          → (used a b ≡ done (answer (used a b))) × AllAnswer m
      answered (done u) e k later = (cc (e, ap answer e), later u k)
      answered (failed z) e k later = cc

  -- Nothing depends on the order of the map.
  perm-AllAnswer : {m m' : Statuses} → Permᴰ m m' → AllAnswer m → AllAnswer m'
  perm-AllAnswer Permᴰ.nil h = tt
  perm-AllAnswer (Permᴰ.cons e d) h = (subst Answers e h.0, perm-AllAnswer d h.1)
  perm-AllAnswer (Permᴰ.swap e f) h = (subst Answers f h.1.0, (subst Answers e h.0, h.1.1))
  perm-AllAnswer (Permᴰ.trans d e) h = perm-AllAnswer e (perm-AllAnswer d h)

  perm-totals : {m m' : Statuses} (n : CheckWallets) → Permᴰ m m' → totals n m ≡ totals n m'
  perm-totals n d = λ i. record {
    external = n.external + sum_of-perm external_one d i;
    in_app = n.in_app + sum_of-perm in_app_one d i;
  }

  -- The loop returns the number of used in-app addresses and of used external addresses, in
  -- whatever order it goes through the map, if in one order no test fails.
  pub count_used_order :
      (m m' : Statuses) (x : CheckWallets)
      → Perm m m'
      → count_used used m (record { external = 0; in_app = 0 }) ≡ done x
      → (x ≡ record { external = used_external m; in_app = used_in_app m })
        × (count_used used m' (record { external = 0; in_app = 0 }) ≡ done x)
  count_used_order m m' x p h =
      let answered = count_used-AllAnswer m (record { external = 0; in_app = 0 }) x h in
      let total = count_used-totals m (record { external = 0; in_app = 0 }) answered in
      (
        ground (arith, h, total),
        ∥∥₁_elim p (Attempt-set _ _) λ d.
            count_used-totals m' (record { external = 0; in_app = 0 }) (perm-AllAnswer d answered)
            ∙ ap done (sym (perm-totals (record { external = 0; in_app = 0 }) d))
            ∙ sym total
            ∙ h,
      )
