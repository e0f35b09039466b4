-- ===== src/Models/CacheKey/Codes.antt =====
-- Texts as lists of code points, and what the decimal text of a number spells.
use Prim.Native.Nat.{◌*◌, ◌/◌, ◌%◌, ◌-◌}
use Prim.Native.Char.{code}
use Prim.Native.String.append
use text.Mathlib.TextEquality.{Char-path}
use mathlib.Core.List.{foldl}
use users_api.Base.{
  ℕ, zero, suc, ◌+◌, ◌<◌, ◌≤◌, String, ◌<>◌, Bool-cases, inl, inr, All, List, [], ◌∷◌, ◌++◌, ◌≡◌,
  refl, ap, ◌∙◌, arith, ◌==◌, nat_eq,
}
use users_api.Models.CacheKey.{digit, itoa_digits, itoa}

abbrev pub codes : String → List ℕ
codes String.[] = []
codes (String.◌∷◌ c s) = code c ∷ codes s

pub codes-append : (s t : String) → codes (s <> t) ≡ codes s ++ codes t
codes-append String.[] t = λ i. codes (append.nil t i)
codes-append (String.◌∷◌ c s) t =
    (λ i. codes (append.cons c s t i)) ∙ ap (λ (l : List ℕ). code c ∷ l) (codes-append s t)

abbrev pub tail_of : List ℕ → List ℕ
tail_of [] = []
tail_of (x ∷ xs) = xs

abbrev pub head_of : List ℕ → ℕ
head_of [] = 0
head_of (x ∷ xs) = x

pub codes-injective : (s t : String) → codes s ≡ codes t → s ≡ t
codes-injective String.[] String.[] h = refl
codes-injective String.[] (String.◌∷◌ d t) h = cc
codes-injective (String.◌∷◌ c s) String.[] h = cc
codes-injective (String.◌∷◌ c s) (String.◌∷◌ d t) h =
    λ i. String.◌∷◌ (Char-path c d (ap head_of h) i) (codes-injective s t (ap tail_of h) i)

-- The number that digits spell behind n.
abbrev pub value : ℕ → List ℕ → ℕ
value = foldl (λ n c. n * 10 + (c - 48))

digit-codes : (d : ℕ) → d < 10 → codes (digit d) ≡ (48 + d) ∷ []
unfolding digit nat_eq
digit-codes zero h = refl
digit-codes (suc zero) h = refl
digit-codes (suc (suc zero)) h = refl
digit-codes (suc (suc (suc zero))) h = refl
digit-codes (suc (suc (suc (suc zero)))) h = refl
digit-codes (suc (suc (suc (suc (suc zero))))) h = refl
digit-codes (suc (suc (suc (suc (suc (suc zero)))))) h = refl
digit-codes (suc (suc (suc (suc (suc (suc (suc zero))))))) h = refl
digit-codes (suc (suc (suc (suc (suc (suc (suc (suc zero)))))))) h = refl
digit-codes (suc (suc (suc (suc (suc (suc (suc (suc (suc zero))))))))) h = refl
digit-codes (suc (suc (suc (suc (suc (suc (suc (suc (suc (suc n)))))))))) h =
    absurd (omega (arith, h))

value-digit :
    (k d : ℕ) (acc : String)
    → d < 10
    → value k (codes (digit d <> acc)) ≡ value (k * 10 + d) (codes acc)
value-digit k d acc h =
    rw (codes-append (digit d) acc, digit-codes d h)
      (ap (λ (m : ℕ). value m (codes acc)) (omega arith))

value-itoa_digits :
    (fuel n : ℕ) (acc : String)
    → n < fuel
    → value 0 (codes (itoa_digits fuel n acc)) ≡ value n (codes acc)
unfolding itoa_digits
value-itoa_digits zero n acc h = absurd (omega (arith, h))
value-itoa_digits (suc fuel) n acc h = elim (Bool-cases (n / 10 == 0)) [
  | inl last ↦ rw last (
      value-digit 0 (n % 10) acc (omega arith)
      ∙ ap (λ (m : ℕ). value m (codes acc)) (ground (arith, last)))
  | inr more ↦ rw more (
      value-itoa_digits fuel (n / 10) (digit (n % 10) <> acc) (ground (arith, more, h))
      ∙ (value-digit (n / 10) (n % 10) acc (omega arith)
          ∙ ap (λ (m : ℕ). value m (codes acc)) (omega arith)))
]

-- The decimal text of a number, read digit by digit, is the number: the fuel is enough for every
-- number, and no digit is lost.
pub value-itoa : (n : ℕ) → value 0 (codes (itoa n)) ≡ n
unfolding itoa
value-itoa n = value-itoa_digits (suc n) n "" (omega arith)

abbrev pub IsDigit : ℕ → Type 0
IsDigit c = (48 ≤ c) × (c < 58)

itoa_digits-IsDigit :
    (fuel n : ℕ) (acc : String)
    → All IsDigit (codes acc)
    → All IsDigit (codes (itoa_digits fuel n acc))
unfolding itoa_digits
itoa_digits-IsDigit zero n acc h = h
itoa_digits-IsDigit (suc fuel) n acc h =
    let more : All IsDigit (codes (digit (n % 10) <> acc)) =
      rw (codes-append (digit (n % 10)) acc, digit-codes (n % 10) (omega arith))
        ((omega arith, omega arith), h) in
    elim (Bool-cases (n / 10 == 0)) [
      | inl last ↦ rw last more
      | inr goes_on ↦ rw goes_on (itoa_digits-IsDigit fuel (n / 10) (digit (n % 10) <> acc) more)
    ]

pub itoa-IsDigit : (n : ℕ) → All IsDigit (codes (itoa n))
unfolding itoa
itoa-IsDigit n = itoa_digits-IsDigit (suc n) n "" tt
