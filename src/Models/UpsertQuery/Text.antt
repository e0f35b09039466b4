-- ===== src/Models/UpsertQuery/Text.antt =====
-- models/psql_upsert.go: the list of assignments in the text of an upsert.
use text.Mathlib.TextLemmas.{append_assoc, append-nil, nil-append}
use mathlib.Core.Path.{subst}
use users_api.Base.{
  ==→≡, ℕ, ◌+◌, ◌<◌, String, ◌<>◌, false, List, [], ◌∷◌, map, All, ◌==◌, nat_eq, string_eq, ◌≡◌,
  refl, sym, ap, ◌∙◌, arith, Bool-cases, inl, inr,
}
use users_api.Go.Library.{Library}
use users_api.Models.User.{Column, column_name}
use users_api.Models.CacheKey.Codes.{codes}
use users_api.Models.CacheKey.Names.{StartsLetter, name-StartsLetter}
use users_api.Models.UpsertQuery.{Dialect, join, assignments}

module _ (L : Library) (dia : Dialect) where
  -- <column> = EXCLUDED.<column>
  abbrev pub assignment : String → String
  assignment name =
      let quoted = L.ident_quote dia.lq dia.rq name in quoted <> (" = EXCLUDED." <> quoted)

  abbrev assignment_text : String → String → String
  assignment_text name rest =
      L.ident_quote dia.lq dia.rq name
      <> (" = EXCLUDED." <> (L.ident_quote dia.lq dia.rq name <> rest))

  assignment-append : (name rest : String) → assignment name <> rest ≡ assignment_text name rest
  assignment-append name rest =
      let q : String = L.ident_quote dia.lq dia.rq name in
      append_assoc q (" = EXCLUDED." <> q) rest
      ∙ ap (λ (s : String). q <> s) (append_assoc " = EXCLUDED." q rest)

  later : (i : ℕ) → 0 < i → (i == 0) ≡ false
  later i h = ground arith

  join-later :
      (s : String) (i : ℕ) (names : List String)
      → 0 < i
      → All (λ name. (name == "") ≡ false) names
      → join "," (s ∷ map assignment names) ≡ s <> assignments L dia i names
  unfolding join assignments
  join-later s i [] h full = sym (append-nil s)
  join-later s i (name ∷ names) h full =
      rw (full.0, later i h)
        (ap (λ (t : String). s <> ("," <> t))
          (join-later (assignment name) (1 + i) names (omega arith) full.1
            ∙ assignment-append name (assignments L dia (1 + i) names)))

  -- The loop that lists the assignments of an upsert, for names none of which is empty, writes the
  -- assignments <name> = EXCLUDED.<name> in order with a comma between each two.
  pub assignments-join :
      (names : List String)
      → All (λ name. (name == "") ≡ false) names
      → assignments L dia 0 names ≡ join "," (map assignment names)
  unfolding join assignments
  assignments-join [] full = refl
  assignments-join (name ∷ names) full = rw full.0 (
      nil-append (assignment_text name (assignments L dia 1 names))
      ∙ sym (
          join-later (assignment name) 1 names (omega arith) full.1
          ∙ assignment-append name (assignments L dia 1 names)))

  full_name : (c : Column) → (column_name c == "") ≡ false
  full_name c = elim (Bool-cases (column_name c == "")) [
    | inl empty ↦
        absurd (
          subst (λ s. StartsLetter (codes s)) (==→≡ (column_name c) "" empty) (name-StartsLetter c))
    | inr full ↦ full
  ]

  full_names : (cols : List Column) → All (λ name. (name == "") ≡ false) (map column_name cols)
  full_names [] = tt
  full_names (c ∷ cs) = (full_name c, full_names cs)

  -- So it does for every list of the table's columns.
  pub assignments-columns :
      (cols : List Column)
      → assignments L dia 0 (map column_name cols)
        ≡ join "," (map assignment (map column_name cols))
  assignments-columns cols = assignments-join (map column_name cols) (full_names cols)
