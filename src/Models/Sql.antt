-- ===== src/Models/Sql.antt =====
-- What the generated code asks of Postgres, of `database/sql` and of SQLBoiler's `queries` package,
-- as operations over an unknown database state, and the laws that theorems assume of them.
use users_api.Base.{ℕ, String, Bool, Option, List}
use users_api.Go.Result.{Attempt}
use users_api.Models.User.{Column, Value, Row}
use users_api.Models.Where.{QueryMod}

-- A `queries.Query` after its modifiers: the setters `SetSelect`, `SetLimit`, `SetCount`,
-- `SetDelete` and `SetUpdate` write the other fields.
pub record Query : Type 0 where
  pub mods : List QueryMod
  pub select_columns : List String
  pub limit : Option ℕ

-- The statements that the generated code executes, with their arguments; the text of a statement is
-- fixed by its form and its columns.
pub data Statement : Type 0 where
  -- UPDATE users SET <columns> WHERE id = $n
  update_columns : List Column → List Value → String → Statement
  -- DELETE FROM users WHERE id = $1
  delete_id : String → Statement
  -- DELETE FROM users WHERE (id = $1) OR (id = $2) ...
  delete_ids : List String → Statement
  -- UPDATE users SET <columns> WHERE (id = $n) OR ...
  update_ids : List (Column × Value) → List String → Statement
  -- The deletion, or the update, of all rows that a query selects.
  delete_query : Query → Statement
  update_query : Query → List (Column × Value) → Statement
  -- INSERT INTO users (<columns>) VALUES (...) RETURNING <columns>
  insert_row : List Column → List Value → List Column → Statement
  -- A statement that Upsert built, with its text.
  upsert_row : String → List Value → Statement
  -- update users set referring_user_id = null where referring_user_id = $1
  clear_referring : String → Statement

-- `Reader`, `Writer`, or a transaction.
pub data Conn (Tx : Type 0) : Type 0 where
  reader writer : Conn Tx
  in_tx : Tx → Conn Tx

pub record Sql : Type 1 where
  pub Db : Type 0
  pub Tx : Type 0
  -- Query.Bind into a struct: the first row, or `sql.ErrNoRows`
  pub bind_one : Conn Tx → Query → Db → Attempt Row
  -- Query.Bind into a slice
  pub bind_all : Conn Tx → Query → Db → Attempt (List Row)
  -- QueryRowContext of a count, scanned
  pub scan_count : Conn Tx → Query → Db → Attempt ℕ
  -- select exists(select 1 from users where id = $1 limit 1), scanned
  pub scan_exists : Conn Tx → String → Db → Attempt Bool
  -- QueryContext, queries.Bind, and Close and Err of what it returns
  pub Cursor : Type 0
  pub query_context : Conn Tx → Query → Db → Attempt Cursor
  pub bind_rows : Cursor → Attempt (List Row)
  pub close_rows : Cursor → Attempt (Unit {0})
  pub rows_error : Cursor → Attempt (Unit {0})
  -- ExecContext, and RowsAffected of what it returns
  pub exec : Conn Tx → Statement → Db → Attempt (Attempt ℕ) × Db
  -- QueryRowContext, and Scan of the given columns into the fields of a row, some of which it may
  -- have written when it fails
  pub scan_returning :
      Conn Tx → Statement → List Column → Row → Db → (Attempt (Unit {0}) × Row) × Db
  -- BeginTx on the writer, Commit, Rollback
  pub begin_tx : Db → Attempt Tx × Db
  pub commit : Tx → Db → Attempt (Unit {0}) × Db
  pub rollback : Tx → Db → Db
