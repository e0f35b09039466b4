-- ===== src/Models/Laws.antt =====
-- What theorems assume of Postgres, for the queries of the generated layer that only compare columns
-- for equality, load relations and ask for confirmed rows first: a read returns rows of the table that
-- meet the query, and the first row in the order of confirmation is a confirmed one if there is one.
use users_api.Base.{String, true, false, List, [], ◌∷◌, ◌≡◌, ◌⊎◌, ◌≢◌, some, All, string_eq}
use users_api.Go.Result.{done, failed}
use users_api.Go.Error.{err_no_rows}
use users_api.Go.Null.{Null}
use users_api.Models.User.{
  Column, Value, text, null_text, flag, null_time, null_bytes, Row, column_value,
}
use users_api.Models.Where.{
  QueryMod, eq, where_compare, where_null_eq, where_is_not_null, from_table, load, order_by,
}
use users_api.Models.Sql.{Query, Conn, Sql}

-- Two nullable values of which `WhereNullEQ` says that they are the same: both null, or both valid and
-- equal.
abbrev pub SameNull {ℓ} : {A : Type ℓ} → Null A → Null A → Type ℓ
SameNull m n = (m.valid ≡ n.valid) × (m.valid ≡ true → m.value ≡ n.value)

abbrev pub SameValue : Value → Value → Type 0
SameValue (null_bytes m) (null_bytes n) = SameNull m n
SameValue _ _ = ⊥

-- Two values of one kind that `=` says are equal: neither is null.
abbrev pub Equals : Value → Value → Type 0
Equals (text s) (text t) = s ≡ t
Equals (text s) (null_text n) = (n.valid ≡ true) × (n.value ≡ s)
Equals (null_text m) (text t) = (m.valid ≡ true) × (m.value ≡ t)
Equals (flag a) (flag b) = a ≡ b
Equals _ _ = ⊥

abbrev pub NotNull : Value → Type 0
NotNull (null_text n) = n.valid ≡ true
NotNull (null_time n) = n.valid ≡ true
NotNull (null_bytes n) = n.valid ≡ true
NotNull _ = Unit

-- The modifiers of which the laws speak: comparisons of a column with an argument of its own type, the
-- tables and relations that the generated code names, and two orders.
abbrev pub IsPlain : QueryMod → Type 0
IsPlain (where_compare Column.id eq (text s)) = Unit
IsPlain (where_compare Column.id eq (null_text n)) = Unit
IsPlain (where_compare Column.referring_user_id eq (text s)) = Unit
IsPlain (where_compare Column.ethereum_confirmed eq (flag b)) = Unit
IsPlain (where_null_eq Column.ethereum_address false (null_bytes n)) = Unit
IsPlain (where_is_not_null c) = Unit
IsPlain (from_table name) = name ≡ "\"users_api\".\"users\""
IsPlain (load relation) = Unit
IsPlain (order_by clause) = (clause ≡ "email_confirmed desc") ⊎ (clause ≡ "created_at DESC")
IsPlain _ = ⊥

-- The orders that are asked for.
abbrev pub orders : List QueryMod → List String
orders [] = []
orders (order_by clause ∷ mods) = clause ∷ orders mods
orders (_ ∷ mods) = orders mods

-- Such a query, for whole rows.
abbrev pub PlainQuery : Query → Type 0
PlainQuery q = (q.select_columns ≡ "\"users_api\".\"users\".*" ∷ []) × All IsPlain q.mods

-- A row meets a modifier.
abbrev pub Meets : Row → QueryMod → Type 0
Meets row (where_compare c eq v) = Equals (column_value c row) v
Meets row (where_null_eq c false v) = SameValue (column_value c row) v
Meets row (where_is_not_null c) = NotNull (column_value c row)
Meets row _ = Unit

abbrev pub In : {A : Type 0} → A → List A → Type 0
In a [] = ⊥
In a (x ∷ xs) = (a ≡ x) ⊎ In a xs

pub record IsLawful (S : Sql) : Type 0 where
  -- The rows that a connection sees.
  pub table : Conn S.Tx → S.Db → List Row
  pub bind_one_in :
      (conn : Conn S.Tx) (q : Query) (d : S.Db) (row : Row)
      → PlainQuery q
      → S.bind_one conn q d ≡ done row
      → In row (table conn d)
  pub bind_one_meets :
      (conn : Conn S.Tx) (q : Query) (d : S.Db) (row : Row)
      → PlainQuery q
      → S.bind_one conn q d ≡ done row
      → All (Meets row) q.mods
  pub bind_all_meets :
      (conn : Conn S.Tx) (q : Query) (d : S.Db) (rows : List Row)
      → PlainQuery q
      → S.bind_all conn q d ≡ done rows
      → All (λ row. All (Meets row) q.mods) rows
  -- A row that meets the query is not missed.
  pub bind_one_finds :
      (conn : Conn S.Tx) (q : Query) (d : S.Db) (other : Row)
      → PlainQuery q
      → q.limit ≡ some 1
      → In other (table conn d)
      → All (Meets other) q.mods
      → S.bind_one conn q d ≢ failed err_no_rows
  -- The first row in the order "email_confirmed desc" is a confirmed one, if a row that meets the
  -- query is.
  pub bind_one_confirmed :
      (conn : Conn S.Tx) (q : Query) (d : S.Db) (row other : Row)
      → PlainQuery q
      → orders q.mods ≡ "email_confirmed desc" ∷ []
      → S.bind_one conn q d ≡ done row
      → In other (table conn d)
      → All (Meets other) q.mods
      → other.email_confirmed ≡ true
      → row.email_confirmed ≡ true
