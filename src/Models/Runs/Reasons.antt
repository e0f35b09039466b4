-- ===== src/Models/Runs/Reasons.antt =====
-- models/users.go: why a read of the generated layer may return an error: which of the reads of the
-- database that it makes fails.
use users_api.Base.{
  String, true, none, List, [], ◌∷◌, ◌≡◌, map, if◌then◌else◌, string_eq, Bool, false,
}
use users_api.Go.Error.{Error}
use users_api.Go.Result.{done, failed}
use users_api.Go.Null.{Null, null_eq}
use users_api.Go.Library.{Library}
use users_api.Models.User.{Column, Value, null_text, Row}
use users_api.Models.Where.{QueryMod, from_table, where_in, load, referring_user}
use users_api.Models.Sql.{Conn, Query}
use users_api.Models.Env.{Env}
use users_api.Models.Load.{add_key}

-- Whether a query loads the referrer.
abbrev pub loads : List QueryMod → Bool
loads [] = false
loads (load referring_user ∷ mods) = true
loads (_ ∷ mods) = loads mods

-- The foreign keys of rows that are not null, each once.
abbrev pub foreign_keys : Library → List Row → List (Null String) → List (Null String)
foreign_keys L [] keys = keys
foreign_keys L (row ∷ rows) keys =
    foreign_keys L rows
      (if L.key_is_nil row.referring_user_id then keys else add_key row.referring_user_id keys)

-- The query of a loader.
abbrev pub in_query : Column → List Value → Query
in_query column args = record {
  mods = from_table "users_api.users" ∷ where_in column args ∷ [];
  select_columns = [];
  limit = none;
}

module _ (E : Env) where
  open E use {sql as S, library as L}

  -- The query for the rows whose column is one of the values fails, or an operation on what it
  -- returned does.
  pub data RelatedFails (conn : Conn S.Tx) (column : Column) (args : List Value) (d : S.Db)
      : Type 0 where
    query_fails :
        (e : Error)
        → S.query_context conn (in_query column args) d ≡ failed e
        → RelatedFails conn column args d
    bind_fails :
        (c : S.Cursor) (e : Error)
        → S.query_context conn (in_query column args) d ≡ done c
        → S.bind_rows c ≡ failed e
        → RelatedFails conn column args d
    close_fails :
        (c : S.Cursor) (e : Error)
        → S.query_context conn (in_query column args) d ≡ done c
        → S.close_rows c ≡ failed e
        → RelatedFails conn column args d
    rows_fail :
        (c : S.Cursor) (e : Error)
        → S.query_context conn (in_query column args) d ≡ done c
        → S.rows_error c ≡ failed e
        → RelatedFails conn column args d

  -- So does the query for the rows that the given keys name.
  abbrev pub KeysFail : Conn S.Tx → List (Null String) → S.Db → Type 0
  KeysFail conn keys = RelatedFails conn Column.id (map null_text (L.range_keys keys))

  -- The query for the referrers of the given rows fails.
  abbrev pub ReferrersFail : Conn S.Tx → List Row → S.Db → Type 0
  ReferrersFail conn rows = KeysFail conn (foreign_keys L rows [])

  -- A query for one row fails, or the one for the referrer of the row that it found does.
  pub data OneFails (conn : Conn S.Tx) (q : Query) (d : S.Db) : Type 0 where
    row_fails : (e : Error) → S.bind_one conn q d ≡ failed e → OneFails conn q d
    referrer_fails :
        (row : Row)
        → S.bind_one conn q d ≡ done row
        → loads q.mods ≡ true
        → ReferrersFail conn (row ∷ []) d
        → OneFails conn q d

  -- A query for all rows fails, or the one for the referrers of the rows that it found does.
  pub data AllFails (conn : Conn S.Tx) (q : Query) (d : S.Db) : Type 0 where
    rows_fails : (e : Error) → S.bind_all conn q d ≡ failed e → AllFails conn q d
    referrers_fail :
        (rows : List Row)
        → S.bind_all conn q d ≡ done rows
        → loads q.mods ≡ true
        → ReferrersFail conn rows d
        → AllFails conn q d
