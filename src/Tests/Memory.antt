-- ===== src/Tests/Memory.antt =====
-- A database that holds at most one user, in memory, with the laws that the theorems assume.
use mathlib.Core.Path.{subst}
use mathlib.Core.Bool.{false≢true}
use users_api.Base.{
  ℕ, Bool, true, false, not, ◌&&◌, Option, none, some, List, [], ◌∷◌, ◌≡◌, ◌≢◌, sym, ◌∙◌, ap, inl,
  inr, arith, All, all, any, length, Bool-cases, refl, ==_refl, ◌==◌, ==→≡, nat_eq, string_eq,
  list_eq, option_eq, Eq, if◌then◌else◌,
}
use users_api.Go.Error.{err_no_rows}
use users_api.Go.Result.{Attempt, done, failed}
use users_api.Go.Null.{Null, null_eq}
use users_api.Models.User.{
  Column, Value, text, null_text, flag, null_time, null_bytes, Row, column_value,
}
use users_api.Models.Where.{QueryMod, eq, where_compare, where_null_eq, where_is_not_null, where_in}
use users_api.Models.Sql.{Query, Statement, delete_id, update_columns, Sql}
use users_api.Models.Laws.{IsLawful, SameNull, SameValue, Equals, IsPlain, NotNull, Meets, In}

module _ {A : Type 0} ⦃e : Eq A⦄ where
  abbrev same_null : Null A → Null A → Bool
  same_null m n = if m.valid then n.valid && m.value == n.value else not n.valid

  same_null-SameNull : (m n : Null A) → same_null m n ≡ true → SameNull m n
  same_null-SameNull m n h = ground arith

-- `=`, of values of one kind.
abbrev equals : Value → Value → Bool
equals (text s) (text t) = s == t
equals (text s) (null_text n) = n.valid && n.value == s
equals (null_text m) (text t) = m.valid && m.value == t
equals (flag a) (flag b) = if a then b else not b
equals _ _ = false

equals-Equals : (v w : Value) → equals v w ≡ true → Equals v w
equals-Equals (text s) (text t) h = ==→≡ s t h
equals-Equals (text s) (null_text n) h = ground arith
equals-Equals (null_text m) (text t) h = ground arith
equals-Equals (flag a) (flag b) h = ground arith
equals-Equals _ _ h = absurd (false≢true h)

abbrev same_value : Value → Value → Bool
same_value (null_bytes m) (null_bytes n) = same_null m n
same_value _ _ = false

same_value-SameValue : (v w : Value) → same_value v w ≡ true → SameValue v w
same_value-SameValue (null_bytes m) (null_bytes n) h = same_null-SameNull m n h
same_value-SameValue _ _ h = absurd (false≢true h)

abbrev not_null : Value → Bool
not_null (null_text n) = n.valid
not_null (null_time n) = n.valid
not_null (null_bytes n) = n.valid
not_null _ = true

not_null-NotNull : (v : Value) → not_null v ≡ true → NotNull v
not_null-NotNull (null_text n) h = h
not_null-NotNull (null_time n) h = h
not_null-NotNull (null_bytes n) h = h
not_null-NotNull _ h = tt

abbrev pub meets : Row → QueryMod → Bool
meets row (where_compare c eq v) = equals (column_value c row) v
meets row (where_null_eq c false v) = same_value (column_value c row) v
meets row (where_is_not_null c) = not_null (column_value c row)
meets row (where_in c keys) = any (equals (column_value c row)) keys
meets row _ = true

meets-Meets : (row : Row) (m : QueryMod) → meets row m ≡ true → Meets row m
meets-Meets row (where_compare c eq v) h = equals-Equals (column_value c row) v h
meets-Meets row (where_null_eq c false v) h = same_value-SameValue (column_value c row) v h
meets-Meets row (where_is_not_null c) h = not_null-NotNull (column_value c row) h
meets-Meets row _ h = tt

pub all-Meets :
    (row : Row) (mods : List QueryMod) → all (meets row) mods ≡ true → All (Meets row) mods
all-Meets row [] h = tt
all-Meets row (m ∷ mods) h = elim (Bool-cases (meets row m)) [
  | inl e ↦ (meets-Meets row m e, all-Meets row mods (rw e at h))
  | inr e ↦ cc (h, e)
]

-- The other way round, for the modifiers of which the laws speak.
equals-true : (v w : Value) → Equals v w → equals v w ≡ true
equals-true (text s) (text t) e = rw e (==_refl t)
equals-true (text s) (null_text n) (v, e) = rw (v, e) (==_refl s)
equals-true (null_text m) (text t) (v, e) = rw (v, e) (==_refl t)
equals-true (flag a) (flag true) e = rw e refl
equals-true (flag a) (flag false) e = rw e refl
equals-true _ _ e = absurd e

same_value-true : (v w : Value) → SameValue v w → same_value v w ≡ true
same_value-true (null_bytes m) (null_bytes n) (v, e) = elim (Bool-cases m.valid) [
  | inl there ↦ rw (there, sym v ∙ there, e there) (==_refl n.value)
  | inr gone ↦ rw (gone, sym v ∙ gone) refl
]
same_value-true _ _ e = absurd e

not_null-true : (v : Value) → NotNull v → not_null v ≡ true
not_null-true (null_text n) h = h
not_null-true (null_time n) h = h
not_null-true (null_bytes n) h = h
not_null-true _ h = refl

meets-true : (row : Row) (m : QueryMod) → IsPlain m → Meets row m → meets row m ≡ true
meets-true row (where_compare c eq v) p h = equals-true (column_value c row) v h
meets-true row (where_null_eq c false v) p h = same_value-true (column_value c row) v h
meets-true row (where_is_not_null c) p h = not_null-true (column_value c row) h
meets-true row (where_in c keys) p h = absurd p
meets-true row _ p h = refl

pub Meets-all :
    (row : Row) (mods : List QueryMod)
    → All IsPlain mods
    → All (Meets row) mods
    → all (meets row) mods ≡ true
Meets-all row [] p h = refl
Meets-all row (m ∷ mods) p h = rw (meets-true row m p.0 h.0) (Meets-all row mods p.1 h.1)

abbrev rows_of : Option Row → List Row
rows_of none = []
rows_of (some row) = row ∷ []

abbrev found : Query → Option Row → Attempt Row
found q none = failed err_no_rows
found q (some row) = if all (meets row) q.mods then done row else failed err_no_rows

abbrev pub selected : Query → Option Row → List Row
selected q none = []
selected q (some row) = if all (meets row) q.mods then row ∷ [] else []

-- The one column that the tests update.
abbrev assign : Column → Value → Row → Row
assign Column.migrated_at (null_time t) row = record row { migrated_at = t }
assign _ _ row = row

abbrev assign_all : List Column → List Value → Row → Row
assign_all [] vs row = row
assign_all (c ∷ cs) [] row = row
assign_all (c ∷ cs) (v ∷ vs) row = assign_all cs vs (assign c v row)

-- The count of the rows that a statement changed, and the rows that it leaves.
abbrev executed : Statement → Option Row → ℕ × Option Row
executed (delete_id user_id) (some row) = if row.id == user_id then (1, none) else (0, some row)
executed (update_columns cs vs user_id) (some row) =
    if row.id == user_id then (1, some (assign_all cs vs row)) else (0, some row)
executed _ d = (0, d)

-- Transactions end without an effect of their own.
abbrev pub memory : Sql
memory = record {
  Db = Option Row;
  Tx = Unit {0};
  bind_one = λ conn. found;
  bind_all = λ conn q d. done (selected q d);
  scan_count = λ conn q d. done (length (selected q d));
  scan_exists = λ conn user_id d. done (any (λ row. row.id == user_id) (rows_of d));
  Cursor = List Row;
  query_context = λ conn q d. done (selected q d);
  bind_rows = λ cursor. done cursor;
  close_rows = λ cursor. done tt;
  rows_error = λ cursor. done tt;
  exec = λ conn statement d. let (n, e) = executed statement d in (done (done n), e);
  scan_returning = λ conn statement columns r d. ((done tt, r), (executed statement d).1);
  begin_tx = λ d. (done tt, d);
  commit = λ tx d. (done tt, d);
  rollback = λ tx d. d;
}

pub found-In : (q : Query) (d : Option Row) (row : Row) → found q d ≡ done row → In row (rows_of d)
found-In q none row h = cc
found-In q (some x) row h = ground arith

pub found-Meets :
    (q : Query) (d : Option Row) (row : Row) → found q d ≡ done row → All (Meets row) q.mods
found-Meets q none row h = cc
found-Meets q (some x) row h = elim (Bool-cases (all (meets x) q.mods)) [
  | inl e ↦ all-Meets row q.mods (ground (arith, h, e))
  | inr e ↦ cc (h, e)
]

pub selected-Meets :
    (q : Query) (d : Option Row) → All (λ row. All (Meets row) q.mods) (selected q d)
selected-Meets q none = tt
selected-Meets q (some x) = elim (Bool-cases (all (meets x) q.mods)) [
  | inl e ↦ rw e (all-Meets x q.mods e, tt)
  | inr e ↦ rw e tt
]

pub In-one :
    (d : Option Row) (row other : Row) → In row (rows_of d) → In other (rows_of d) → row ≡ other
In-one none row other a b = absurd a
In-one (some x) row other (inl p) (inl q) = p ∙ sym q
In-one (some x) row other (inr a) b = absurd a
In-one (some x) row other (inl p) (inr b) = absurd b

pub done-injective : {A : Type 0} {a b : A} → done a ≡ done b → a ≡ b
done-injective p = cc p

pub found_finds :
    (q : Query) (d : Option Row) (other : Row)
    → In other (rows_of d)
    → all (meets other) q.mods ≡ true
    → found q d ≢ failed err_no_rows
found_finds q none other i m z = absurd i
found_finds q (some x) other (inl e) m z = cc (rw e at m, z)
found_finds q (some x) other (inr i) m z = absurd i

abbrev pub memory_lawful : IsLawful memory
memory_lawful = record {
  table = λ conn. rows_of;
  bind_one_in = λ conn q d row plain. found-In q d row;
  bind_one_meets = λ conn q d row plain. found-Meets q d row;
  bind_all_meets = λ conn q d rows plain h.
      subst (λ rs. All (λ row. All (Meets row) q.mods) rs) (done-injective h) (selected-Meets q d);
  bind_one_finds = λ conn q d other plain limited stored m.
      found_finds q d other stored (Meets-all other q.mods plain.1 m);
  bind_one_confirmed = λ conn q d row other plain ordered h stored m confirmed.
      ap (λ (y : Row). y.email_confirmed) (In-one d row other (found-In q d row h) stored)
      ∙ confirmed;
}
