-- ===== src/Cmd/Migrate.antt =====
-- internal/database/migrate.go: `MigrateDatabase`.
use users_api.Base.{String, ◌==◌, string_eq, if◌then◌else◌, List, []}
use users_api.Go.Result.{ok}
use users_api.Go.Exec.{Exec, ◌>>◌}

-- `sql.Open`, the connection, and goose: `RunContext` with the command, the directory and the
-- arguments behind them.
pub record Goose : Type 1 where
  pub State : Type 0
  pub open_db : Exec State (Unit {0})
  pub ping : Exec State (Unit {0})
  pub create_schema : Exec State (Unit {0})
  pub set_table_name : String → State → State
  pub run_context : String → String → List String → Exec State (Unit {0})
  pub close : State → State

module _ (G : Goose) where
  -- `defer db.Close()`
  unfoldable pub with_close : Exec G.State (Unit {0}) → Exec G.State (Unit {0})
  with_close body s = let (r, s') = body s in (r, G.close s')

  abbrev pub default_command : String → String
  default_command command = if command == "" then "up" else command

  unfoldable pub name_table : Exec G.State (Unit {0})
  name_table s = (ok tt, G.set_table_name "users_api.migrations" s)

  unfoldable pub run_migrations : String → String → Exec G.State (Unit {0})
  unfolding name_table
  run_migrations command dir = do
    G.ping
    G.create_schema
    name_table
    G.run_context (default_command command) dir []

  -- `MigrateDatabase`
  unfoldable pub migrate_database : String → String → Exec G.State (Unit {0})
  unfolding with_close run_migrations
  migrate_database command dir = do G.open_db; with_close (run_migrations command dir)
