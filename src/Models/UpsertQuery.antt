-- ===== src/Models/UpsertQuery.antt =====
-- models/psql_upsert.go: the options of an upsert and `buildUpsertQueryPostgres`, and the dialect of
-- models/boil_queries.go.
pub mod Text
use users_api.Base.{
  ℕ, ◌+◌, String, ◌<>◌, Bool, true, false, not, ◌||◌, List, [], ◌∷◌, map, length, ◌==◌, nat_eq,
  string_eq, if◌then◌else◌,
}
use users_api.Go.Library.{Library}

-- `drivers.Dialect`, the entries that the code reads
pub record Dialect : Type 0 where
  pub lq : String
  pub rq : String
  pub use_index_placeholders : Bool

-- `dialect`
abbrev pub dialect : Dialect
dialect = record { lq = "\""; rq = "\""; use_index_placeholders = true }

pub record UpsertOptions : Type 0 where
  pub conflict_target : String
  pub update_set : String

-- `UpsertOptionFunc`
abbrev pub UpsertOption : Type 0
UpsertOption = UpsertOptions → UpsertOptions

unfoldable pub upsert_conflict_target : String → UpsertOption
upsert_conflict_target target o = record o { conflict_target = target }

unfoldable pub upsert_update_set : String → UpsertOption
upsert_update_set updates o = record o { update_set = updates }

-- `for _, o := range opts { o(upsertOpts) }`
unfoldable pub apply_options : List UpsertOption → UpsertOptions → UpsertOptions
apply_options [] o = o
apply_options (f ∷ fs) o = apply_options fs (f o)

-- strings.Join
unfoldable pub join : String → List String → String
join sep [] = ""
join sep (s ∷ []) = s
join sep (s ∷ t ∷ rest) = s <> (sep <> join sep (t ∷ rest))

module _ (L : Library) where
  abbrev quote_all : Dialect → List String → List String
  quote_all dia = map (L.ident_quote dia.lq dia.rq)

  -- `columns`
  unfoldable pub insert_columns : Dialect → List String → String
  unfolding nat_eq
  insert_columns dia whitelist =
      if length whitelist == 0
      then "DEFAULT VALUES"
      else "("
        <> (join ", " whitelist
            <> (") VALUES ("
                <> (L.placeholders dia.use_index_placeholders (length whitelist) <> ")")))

  unfoldable pub conflict_text : UpsertOptions → List String → String
  unfolding nat_eq
  conflict_text o conflict =
      if not (o.conflict_target == "")
      then o.conflict_target
      else if not (length conflict == 0)
      then "(" <> (join ", " conflict <> ")")
      else ""

  -- The loop over `update` from the index i on: a comma stands before each assignment but one at the
  -- index 0, and an empty name is skipped.
  unfoldable pub assignments : Dialect → ℕ → List String → String
  unfolding nat_eq
  assignments dia i [] = ""
  assignments dia i (v ∷ vs) =
      let rest = assignments dia (1 + i) vs in
      let quoted = L.ident_quote dia.lq dia.rq v in
      if v == ""
      then rest
      else (if not (i == 0) then "," else "") <> (quoted <> (" = EXCLUDED." <> (quoted <> rest)))

  unfoldable pub conflict_action : Dialect → Bool → UpsertOptions → List String → String
  unfolding assignments nat_eq
  conflict_action dia update_on_conflict o update =
      if not update_on_conflict || length update == 0
      then "DO NOTHING"
      else "DO UPDATE SET "
        <> (if not (o.update_set == "") then o.update_set else assignments dia 0 update)

  unfoldable pub returning_text : List String → String
  unfolding nat_eq
  returning_text ret = if not (length ret == 0) then " RETURNING " <> join ", " ret else ""

  -- `buildUpsertQueryPostgres`
  unfoldable pub build_upsert_query_postgres :
      Dialect
      → String
      → Bool
      → (ret update conflict whitelist : List String) → List UpsertOption
      → String
  unfolding insert_columns conflict_text conflict_action returning_text apply_options
  build_upsert_query_postgres dia table_name update_on_conflict ret update conflict whitelist opts =
      let o = apply_options opts (record { conflict_target = ""; update_set = "" }) in
      "INSERT INTO "
      <> (table_name
          <> (" "
              <> (insert_columns dia (quote_all dia whitelist)
                  <> (" ON CONFLICT "
                      <> (conflict_text o (quote_all dia conflict)
                          <> (" "
                              <> (conflict_action dia update_on_conflict o update
                                  <> returning_text (quote_all dia ret))))))))
