-- ===== src/Models/CacheKey/Injective.antt =====
-- models/boil_types.go and models/users.go: the keys of the statement caches tell apart all that they
-- are made of.
use mathlib.Core.List.{append-nil}
use users_api.Base.{
  ℕ, String, ◌<>◌, false, List, [], ◌∷◌, ◌++◌, ◌≡◌, refl, sym, ap, ◌∙◌, arith, All, length, ◌==◌,
  nat_eq, if◌then◌else◌,
}
use users_api.Models.User.{Column, column_name}
use users_api.Models.Env.{Columns}
use users_api.Models.CacheKey.{itoa, concat_names, make_cache_key}
use users_api.Models.CacheKey.Codes.{
  head_of, tail_of, codes, codes-append, value, value-itoa, IsDigit, itoa-IsDigit,
}
use users_api.Models.CacheKey.Names.{
  run, IsStop, run-injective, run-cons, StartsLetter, name-StartsLetter,
}

-- Where a number and its names end: at the end of the text, or before a dot.
abbrev pub IsEnd : List ℕ → Type 0
IsEnd [] = Unit
IsEnd (c ∷ cs) = c ≡ 46

pub IsEnd-IsStop : (x : List ℕ) → IsEnd x → IsStop x
IsEnd-IsStop [] h = tt
IsEnd-IsStop (c ∷ cs) h = omega (arith, h)

abbrev NoDigit : List ℕ → Type 0
NoDigit [] = Unit
NoDigit (c ∷ cs) = IsDigit c → ⊥

letter-NoDigit : (n x : List ℕ) → StartsLetter n → NoDigit (n ++ x)
letter-NoDigit [] x h = absurd h
letter-NoDigit (c ∷ cs) x h = λ (a, b). omega (arith, h, b)

run-NoDigit : (cs : List Column) (x : List ℕ) → IsEnd x → NoDigit (run cs ++ x)
unfolding concat_names
run-NoDigit [] [] h = tt
run-NoDigit [] (c ∷ x) h = λ (a, b). omega (arith, h, a)
run-NoDigit (c ∷ cs) x h =
    rw (run-cons c cs x)
      (letter-NoDigit (codes (column_name c)) (run cs ++ x) (name-StartsLetter c))

digits-injective :
    (a b x y : List ℕ)
    → All IsDigit a
    → All IsDigit b
    → NoDigit x
    → NoDigit y
    → a ++ x ≡ b ++ y
    → (a ≡ b) × (x ≡ y)
digits-injective [] [] x y ha hb nx ny e = (refl, e)
digits-injective [] (d ∷ b) [] y ha hb nx ny e = cc
digits-injective [] (d ∷ b) (c ∷ x) y ha hb nx ny e =
    let p : c ≡ d = ap head_of e in absurd (nx (omega (arith, p, hb.0)))
digits-injective (c ∷ a) [] x [] ha hb nx ny e = cc
digits-injective (c ∷ a) [] x (d ∷ y) ha hb nx ny e =
    let p : c ≡ d = ap head_of e in absurd (ny (omega (arith, p, ha.0)))
digits-injective (c ∷ a) (d ∷ b) x y ha hb nx ny e =
    let p : c ≡ d = ap head_of e in
    let (q, r) = digits-injective a b x y ha.1 hb.1 nx ny (ap tail_of e) in ((λ i. p i ∷ q i), r)

-- A number, a run of names and an end can be read in one way only.
pub numbered-injective :
    (k l : ℕ) (cs ds : List Column) (x y : List ℕ)
    → IsEnd x
    → IsEnd y
    → codes (itoa k) ++ (run cs ++ x) ≡ codes (itoa l) ++ (run ds ++ y)
    → (k ≡ l) × (cs ≡ ds) × (x ≡ y)
numbered-injective k l cs ds x y ex ey e =
    let (p, q) =
      digits-injective (codes (itoa k)) (codes (itoa l)) (run cs ++ x) (run ds ++ y)
        (itoa-IsDigit k) (itoa-IsDigit l) (run-NoDigit cs x ex) (run-NoDigit ds y ey) e in
    let (r, s) = run-injective cs ds x y (IsEnd-IsStop x ex) (IsEnd-IsStop y ey) q in
    (sym (value-itoa k) ∙ (ap (value 0) p ∙ value-itoa l), r, s)

-- What stands behind the first columns of a key of `Insert` and `Update`.
abbrev defaults_text : List Column → String
defaults_text nz = (if length nz == 0 then "" else ".") <> concat_names nz

defaults_codes : List Column → List ℕ
defaults_codes [] = []
defaults_codes (c ∷ cs) = 46 ∷ run (c ∷ cs)

nonempty : (c : Column) (cs : List Column) → (length (c ∷ cs) == 0) ≡ false
nonempty c cs = ground arith

codes-defaults_text : (nz : List Column) → codes (defaults_text nz) ≡ defaults_codes nz
unfolding defaults_codes concat_names nat_eq
codes-defaults_text [] = refl
codes-defaults_text (c ∷ cs) = rw (nonempty c cs) (codes-append "." (concat_names (c ∷ cs)))

defaults-IsEnd : (nz : List Column) → IsEnd (defaults_codes nz)
unfolding defaults_codes
defaults-IsEnd [] = tt
defaults-IsEnd (c ∷ cs) = refl

pub only_run-injective : (cs ds : List Column) → run cs ≡ run ds → cs ≡ ds
only_run-injective cs ds e =
    (run-injective cs ds [] [] tt tt (append-nil (run cs) ∙ (e ∙ sym (append-nil (run ds))))).0

defaults-injective : (m n : List Column) → defaults_codes m ≡ defaults_codes n → m ≡ n
unfolding defaults_codes
defaults-injective [] [] e = refl
defaults-injective [] (d ∷ ds) e = cc
defaults-injective (c ∷ cs) [] e = cc
defaults-injective (c ∷ cs) (d ∷ ds) e = only_run-injective (c ∷ cs) (d ∷ ds) (ap tail_of e)

codes-make_cache_key :
    (columns : Columns) (nz : List Column)
    → codes (make_cache_key columns nz)
      ≡ codes (itoa columns.kind) ++ (run columns.cols ++ defaults_codes nz)
unfolding make_cache_key
codes-make_cache_key columns nz =
    rw
      (
        codes-append (itoa columns.kind) (concat_names columns.cols <> defaults_text nz),
        codes-append (concat_names columns.cols) (defaults_text nz),
        codes-defaults_text nz,
      )
      refl

-- A key of the caches of `Insert` and `Update` determines the set of columns that it was made for, its
-- kind and its columns in order, and the columns with a non-zero default: no two of them share a key.
pub make_cache_key-injective :
    (columns columns' : Columns) (nz nz' : List Column)
    → make_cache_key columns nz ≡ make_cache_key columns' nz'
    → (columns ≡ columns') × (nz ≡ nz')
make_cache_key-injective columns columns' nz nz' e =
    let (k, cs, x) =
      numbered-injective columns.kind columns'.kind columns.cols columns'.cols (defaults_codes nz)
        (defaults_codes nz') (defaults-IsEnd nz) (defaults-IsEnd nz')
        (sym (codes-make_cache_key columns nz)
          ∙ (ap codes e ∙ codes-make_cache_key columns' nz')) in
    ((λ i. record { kind = k i; cols = cs i }), defaults-injective nz nz' x)
