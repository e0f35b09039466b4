-- ===== src/Cmd.antt =====
-- cmd/users-api and internal/database: the command line, the HTTP server and the migrations.
pub mod Server
pub mod Main
pub mod Migrate
