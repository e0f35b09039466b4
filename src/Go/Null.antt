-- ===== src/Go/Null.antt =====
-- The nullable values of `github.com/volatiletech/null`: a value and whether it is valid. The code
-- reads both fields. `[]byte` is `none` for nil and `some` for a slice, an empty one included.
use mathlib.Core.Logic.{dite}
use mathlib.Core.Bool.{Bool-discrete}
use users_api.Base.{ℕ, Bool, Option, none, some, List, length, Eq, ap}

pub record Null {ℓ} (A : Type ℓ) : Type ℓ where
  pub value : A
  pub valid : Bool

module _ {ℓ} {A : Type ℓ} ⦃e : Eq A⦄ where
  null_dec : Discrete (Null A)
  null_dec m n =
      dite (e.dec m.value n.value)
        (λ p.
          dite (Bool-discrete m.valid n.valid) (λ q. yes (λ i. record { value = p i; valid = q i }))
            (λ differ. no (λ h. differ (ap (λ (x : Null A). x.valid) h))))
        (λ differ. no (λ h. differ (ap (λ (x : Null A). x.value) h)))

  instance unfoldable pub null_eq : Eq (Null A)
  unfolding null_dec
  null_eq = record { dec = null_dec }

abbrev pub Bytes : Type 0
Bytes = Option (List ℕ)

abbrev pub bytes_len : Bytes → ℕ
bytes_len none = 0
bytes_len (some bs) = length bs

-- `time.Time`, as the time that has passed since the zero time, which is 0.
abbrev pub Time : Type 0
Time = ℕ

-- `common.Address`, the twenty bytes.
abbrev pub Address : Type 0
Address = List ℕ
