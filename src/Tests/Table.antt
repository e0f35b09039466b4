-- ===== src/Tests/Table.antt =====
-- A database that holds any number of users, for reading, with the laws that the theorems assume:
-- where no order is asked for, confirmed rows come first as well.
use users_api.Base.{
  Bool, true, false, ◌&&◌, Option, none, some, List, [], ◌∷◌, ◌≡◌, ◌≢◌, refl, inl, inr, arith, All,
  all, Bool-cases, Option-cases, if◌then◌else◌, length,
}
use users_api.Go.Error.{err_no_rows}
use users_api.Go.Result.{Attempt, done, failed}
use users_api.Models.User.{Row}
use users_api.Models.Sql.{Query, Sql}
use users_api.Models.Laws.{Meets, In, IsLawful}
use users_api.Tests.Memory.{meets, all-Meets, Meets-all, done-injective}
use mathlib.Core.Path.{subst}
use mathlib.Core.Option.{some-injective}

abbrev find : (Row → Bool) → List Row → Option Row
find P [] = none
find P (row ∷ rows) = if P row then some row else find P rows

abbrev keep : (Row → Bool) → List Row → List Row
keep P [] = []
keep P (row ∷ rows) = let rest = keep P rows in if P row then row ∷ rest else rest

find-In : (P : Row → Bool) (rows : List Row) (row : Row) → find P rows ≡ some row → In row rows
find-In P [] row e = cc
find-In P (x ∷ rows) row e = elim (Bool-cases (P x)) [
  | inl h ↦ inl (ground (arith, e, h))
  | inr h ↦ inr (find-In P rows row (rw h at e))
]

find_holds : (P : Row → Bool) (rows : List Row) (row : Row) → find P rows ≡ some row → P row ≡ true
find_holds P [] row e = cc
find_holds P (x ∷ rows) row e = elim (Bool-cases (P x)) [
  | inl h ↦ let same : x ≡ row = some-injective x row (rw h at e) in subst (λ r. P r ≡ true) same h
  | inr h ↦ find_holds P rows row (rw h at e)
]

find_complete :
    (P : Row → Bool) (rows : List Row) (row : Row) → In row rows → P row ≡ true → find P rows ≢ none
find_complete P [] row i h = absurd i
find_complete P (x ∷ rows) row (inl e) h = λ z. cc (rw e at h, z)
find_complete P (x ∷ rows) row (inr i) h = elim (Bool-cases (P x)) [
  | inl k ↦ λ z. cc (z, k)
  | inr k ↦ λ z. find_complete P rows row i h (rw k at z)
]

-- The row of a query, a confirmed one if there is one.
abbrev matching : Query → Row → Bool
matching q row = all (meets row) q.mods

abbrev confirmed_match : Query → Row → Bool
confirmed_match q row = matching q row && row.email_confirmed

abbrev or_first : Option Row → Option Row → Attempt Row
or_first (some row) o = done row
or_first none (some row) = done row
or_first none none = failed err_no_rows

abbrev first_row : Query → List Row → Attempt Row
first_row q rows = or_first (find (confirmed_match q) rows) (find (matching q) rows)

pub first_row-In :
    (q : Query) (rows : List Row) (row : Row) → first_row q rows ≡ done row → In row rows
first_row-In q rows row e = elim (Option-cases (find (confirmed_match q) rows)) [
  | inl gone ↦ elim (Option-cases (find (matching q) rows)) [
    | inl neither ↦ cc (rw (gone, neither) at e)
    | inr (x, here) ↦
        subst (λ r. In r rows) (done-injective (rw (gone, here) at e))
          (find-In (matching q) rows x here)
  ]
  | inr (x, here) ↦
      subst (λ r. In r rows) (done-injective (rw here at e))
        (find-In (confirmed_match q) rows x here)
]

both : (a b : Bool) → (a && b) ≡ true → (a ≡ true) × (b ≡ true)
both a b h = ground arith

pub first_row_matches :
    (q : Query) (rows : List Row) (row : Row) → first_row q rows ≡ done row → matching q row ≡ true
first_row_matches q rows row e = elim (Option-cases (find (confirmed_match q) rows)) [
  | inl gone ↦ elim (Option-cases (find (matching q) rows)) [
    | inl neither ↦ cc (rw (gone, neither) at e)
    | inr (x, here) ↦
        subst (λ r. matching q r ≡ true) (done-injective (rw (gone, here) at e))
          (find_holds (matching q) rows x here)
  ]
  | inr (x, here) ↦
      subst (λ r. matching q r ≡ true) (done-injective (rw here at e))
        (both (matching q x) x.email_confirmed (find_holds (confirmed_match q) rows x here)).0
]

pub first_row_confirmed :
    (q : Query) (rows : List Row) (row other : Row)
    → first_row q rows ≡ done row
    → In other rows
    → matching q other ≡ true
    → other.email_confirmed ≡ true
    → row.email_confirmed ≡ true
first_row_confirmed q rows row other e stored m c =
    elim (Option-cases (find (confirmed_match q) rows)) [
      | inl gone ↦
          absurd (find_complete (confirmed_match q) rows other stored (rw (m, c) refl) gone)
      | inr (x, here) ↦
          subst (λ (r : Row). r.email_confirmed ≡ true) (done-injective (rw here at e))
            (both (matching q x) x.email_confirmed (find_holds (confirmed_match q) rows x here)).1
    ]

pub first_row_finds :
    (q : Query) (rows : List Row) (other : Row)
    → In other rows
    → matching q other ≡ true
    → first_row q rows ≢ failed err_no_rows
first_row_finds q rows other stored m z = elim (Option-cases (find (confirmed_match q) rows)) [
  | inl gone ↦ elim (Option-cases (find (matching q) rows)) [
    | inl neither ↦ absurd (find_complete (matching q) rows other stored m neither)
    | inr (x, here) ↦ cc (rw (gone, here) at z)
  ]
  | inr (x, here) ↦ cc (rw here at z)
]

pub keep-Meets :
    (q : Query) (rows : List Row) → All (λ row. All (Meets row) q.mods) (keep (matching q) rows)
keep-Meets q [] = tt
keep-Meets q (x ∷ rows) = elim (Bool-cases (matching q x)) [
  | inl e ↦ rw e (all-Meets x q.mods e, keep-Meets q rows)
  | inr e ↦ rw e (keep-Meets q rows)
]

abbrev pub table : Sql
table = record {
  Db = List Row;
  Tx = Unit {0};
  bind_one = λ conn. first_row;
  bind_all = λ conn q d. done (keep (matching q) d);
  scan_count = λ conn q d. done (length (keep (matching q) d));
  scan_exists = λ conn user_id d. done false;
  Cursor = List Row;
  query_context = λ conn q d. done (keep (matching q) d);
  bind_rows = λ cursor. done cursor;
  close_rows = λ cursor. done tt;
  rows_error = λ cursor. done tt;
  exec = λ conn statement d. (done (done 0), d);
  scan_returning = λ conn statement columns r d. ((done tt, r), d);
  begin_tx = λ d. (done tt, d);
  commit = λ tx d. (done tt, d);
  rollback = λ tx d. d;
}

abbrev pub table_lawful : IsLawful table
table_lawful = record {
  table = λ conn d. d;
  bind_one_in = λ conn q d row plain. first_row-In q d row;
  bind_one_meets = λ conn q d row plain h. all-Meets row q.mods (first_row_matches q d row h);
  bind_all_meets = λ conn q d rows plain h.
      subst (λ rs. All (λ row. All (Meets row) q.mods) rs) (done-injective h) (keep-Meets q d);
  bind_one_finds = λ conn q d other plain limited stored m.
      first_row_finds q d other stored (Meets-all other q.mods plain.1 m);
  bind_one_confirmed = λ conn q d row other plain ordered h stored m confirmed.
      first_row_confirmed q d row other h stored (Meets-all other q.mods plain.1 m) confirmed;
}
