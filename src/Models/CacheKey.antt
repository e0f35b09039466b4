-- ===== src/Models/CacheKey.antt =====
-- models/boil_types.go: `makeCacheKey`. A key is the kind of a column set and its columns, then
-- the columns with a non-zero default, joined with no separator but one dot.
pub mod Codes
pub mod Names
pub mod Injective
use Prim.Native.Nat.{◌/◌, ◌%◌}
use users_api.Base.{ℕ, zero, suc, String, ◌<>◌, List, [], ◌∷◌, ◌==◌, nat_eq, if◌then◌else◌, length}
use users_api.Models.User.{Column, column_name}
use users_api.Models.Env.{Columns}

-- strconv.Itoa of a number that is not negative, by fuel above its digits.
digit : ℕ → String
digit n =
    if n == 0
    then "0"
    else if n == 1
    then "1"
    else if n == 2
    then "2"
    else if n == 3
    then "3"
    else if n == 4
    then "4"
    else if n == 5
    then "5"
    else if n == 6
    then "6"
    else if n == 7
    then "7"
    else if n == 8
    then "8"
    else "9"

itoa_digits : ℕ → ℕ → String → String
unfolding digit
itoa_digits zero n acc = acc
itoa_digits (suc fuel) n acc =
    let rest = itoa_digits fuel (n / 10) (digit (n % 10) <> acc) in
    if n / 10 == 0 then digit (n % 10) <> acc else rest

unfoldable pub itoa : ℕ → String
unfolding itoa_digits
itoa n = itoa_digits (suc n) n ""

unfoldable pub concat_names : List Column → String
unfolding column_name
concat_names [] = ""
concat_names (c ∷ cs) = column_name c <> concat_names cs

unfoldable pub make_cache_key : Columns → List Column → String
unfolding itoa concat_names
make_cache_key columns nz_defaults =
    itoa columns.kind
    <> (concat_names columns.cols
        <> ((if length nz_defaults == 0 then "" else ".") <> concat_names nz_defaults))
