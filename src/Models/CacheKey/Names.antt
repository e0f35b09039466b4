-- ===== src/Models/CacheKey/Names.antt =====
-- models/boil_types.go: a run of column names, written with nothing between them, can be read in one
-- way only.
use mathlib.Core.List.{append_assoc}
use mathlib.Core.Path.{subst}
use users_api.Base.{
  ℕ, ◌<◌, ◌≤◌, Bool, true, false, ==→≡, List, [], ◌∷◌, ◌++◌, ◌≡◌, ◌≢◌, refl, sym, ap, ◌∙◌, arith,
  ◌==◌, nat_eq, if◌then◌else◌,
}
use users_api.Models.User.{Column, Column-discrete, column_name}
use users_api.Models.CacheKey.{concat_names}
use users_api.Models.CacheKey.Codes.{codes, codes-append, head_of, tail_of}

-- Two texts that no continuations, which do not start with an underscore, make equal.
abbrev clash : List ℕ → List ℕ → Bool
clash [] [] = false
clash [] (d ∷ ds) = d == 95
clash (c ∷ cs) [] = c == 95
clash (c ∷ cs) (d ∷ ds) = let rest = clash cs ds in if c == d then rest else true

abbrev NoUnderscore : List ℕ → Type 0
NoUnderscore [] = Unit
NoUnderscore (c ∷ cs) = c ≢ 95

clash-ne : (a b x y : List ℕ) → clash a b ≡ true → NoUnderscore x → NoUnderscore y → a ++ x ≢ b ++ y
clash-ne [] [] x y h nx ny e = cc
clash-ne [] (d ∷ ds) [] y h nx ny e = cc
clash-ne [] (d ∷ ds) (c ∷ cs) y h nx ny e = nx (cc (e, ==→≡ d 95 h))
clash-ne (c ∷ cs) [] x [] h nx ny e = cc
clash-ne (c ∷ cs) [] x (d ∷ ds) h nx ny e = ny (cc (e, ==→≡ c 95 h))
clash-ne (c ∷ cs) (d ∷ ds) x y h nx ny e = ground (arith, clash-ne cs ds x y)

names-clash : (c d : Column) → c ≢ d → clash (codes (column_name c)) (codes (column_name d)) ≡ true
unfolding column_name nat_eq
names-clash Column.id Column.id n = absurd (n refl)
names-clash Column.email_address Column.email_address n = absurd (n refl)
names-clash Column.email_confirmed Column.email_confirmed n = absurd (n refl)
names-clash Column.email_confirmation_sent_at Column.email_confirmation_sent_at n = absurd (n refl)
names-clash Column.email_confirmation_key Column.email_confirmation_key n = absurd (n refl)
names-clash Column.created_at Column.created_at n = absurd (n refl)
names-clash Column.country_code Column.country_code n = absurd (n refl)
names-clash Column.ethereum_address Column.ethereum_address n = absurd (n refl)
names-clash Column.agreed_tos_at Column.agreed_tos_at n = absurd (n refl)
names-clash Column.auth_provider_id Column.auth_provider_id n = absurd (n refl)
names-clash Column.ethereum_challenge Column.ethereum_challenge n = absurd (n refl)
names-clash Column.ethereum_challenge_sent Column.ethereum_challenge_sent n = absurd (n refl)
names-clash Column.ethereum_confirmed Column.ethereum_confirmed n = absurd (n refl)
names-clash Column.in_app_wallet Column.in_app_wallet n = absurd (n refl)
names-clash Column.referral_code Column.referral_code n = absurd (n refl)
names-clash Column.referred_at Column.referred_at n = absurd (n refl)
names-clash Column.referring_user_id Column.referring_user_id n = absurd (n refl)
names-clash Column.migrated_at Column.migrated_at n = absurd (n refl)
names-clash _ _ n = refl

-- Where a run of names ends: at the end of the text, or before what is no letter and no underscore.
abbrev pub IsStop : List ℕ → Type 0
IsStop [] = Unit
IsStop (c ∷ cs) = c < 95

abbrev pub StartsLetter : List ℕ → Type 0
StartsLetter [] = ⊥
StartsLetter (c ∷ cs) = 97 ≤ c

pub name-StartsLetter : (c : Column) → StartsLetter (codes (column_name c))
unfolding column_name
name-StartsLetter Column.id = omega arith
name-StartsLetter _ = omega arith

-- The code points of a run of names.
abbrev pub run : List Column → List ℕ
run cs = codes (concat_names cs)

pub run-cons :
    (c : Column) (cs : List Column) (x : List ℕ)
    → run (c ∷ cs) ++ x ≡ codes (column_name c) ++ (run cs ++ x)
unfolding concat_names
run-cons c cs x =
    rw (codes-append (column_name c) (concat_names cs))
      (append_assoc (codes (column_name c)) (run cs) x)

StartsLetter-NoUnderscore : (n x : List ℕ) → StartsLetter n → NoUnderscore (n ++ x)
StartsLetter-NoUnderscore [] x h = absurd h
StartsLetter-NoUnderscore (c ∷ cs) x h = omega (arith, h)

IsStop-NoUnderscore : (x : List ℕ) → IsStop x → NoUnderscore x
IsStop-NoUnderscore [] h = tt
IsStop-NoUnderscore (c ∷ cs) h = omega (arith, h)

run-NoUnderscore : (cs : List Column) (x : List ℕ) → IsStop x → NoUnderscore (run cs ++ x)
unfolding concat_names
run-NoUnderscore [] x h = IsStop-NoUnderscore x h
run-NoUnderscore (c ∷ cs) x h =
    subst NoUnderscore (sym (run-cons c cs x))
      (StartsLetter-NoUnderscore (codes (column_name c)) (run cs ++ x) (name-StartsLetter c))

stop-ne-letter : (n x y : List ℕ) → StartsLetter n → IsStop x → x ≢ n ++ y
stop-ne-letter [] x y h stop e = absurd h
stop-ne-letter (c ∷ cs) [] y h stop e = cc
stop-ne-letter (c ∷ cs) (d ∷ x) y h stop e = omega (arith, h, stop, ap head_of e)

append_cancel : (n x y : List ℕ) → n ++ x ≡ n ++ y → x ≡ y
append_cancel [] x y e = e
append_cancel (c ∷ cs) x y e = append_cancel cs x y (ap tail_of e)

-- Two runs of names that read the same are the same, and what stands behind them is.
pub run-injective :
    (cs ds : List Column) (x y : List ℕ)
    → IsStop x
    → IsStop y
    → run cs ++ x ≡ run ds ++ y
    → (cs ≡ ds) × (x ≡ y)
unfolding concat_names
run-injective [] [] x y sx sy e = (refl, e)
run-injective [] (d ∷ ds) x y sx sy e = absurd (
    stop-ne-letter (codes (column_name d)) x (run ds ++ y) (name-StartsLetter d) sx
      (e ∙ run-cons d ds y))
run-injective (c ∷ cs) [] x y sx sy e = absurd (
    stop-ne-letter (codes (column_name c)) y (run cs ++ x) (name-StartsLetter c) sy
      (sym e ∙ run-cons c cs x))
run-injective (c ∷ cs) (d ∷ ds) x y sx sy e =
    let e' : codes (column_name c) ++ (run cs ++ x) ≡ codes (column_name d) ++ (run ds ++ y) =
      sym (run-cons c cs x) ∙ (e ∙ run-cons d ds y) in
    elim (Column-discrete c d) [
      | yes p ↦
          let tails =
            append_cancel (codes (column_name c)) (run cs ++ x) (run ds ++ y)
              (e' ∙ ap (λ (k : Column). codes (column_name k) ++ (run ds ++ y)) (sym p)) in
          let (q, r) = run-injective cs ds x y sx sy tails in ((λ i. p i ∷ q i), r)
      | no n ↦ absurd (
          clash-ne (codes (column_name c)) (codes (column_name d)) (run cs ++ x) (run ds ++ y)
            (names-clash c d n) (run-NoUnderscore cs x sx) (run-NoUnderscore ds y sy) e')
    ]
