-- ===== src/Models.antt =====
-- models/: the generated data access layer of the `users` table.
pub mod User
pub mod Where
pub mod UserWhere
pub mod Sql
pub mod World
pub mod Hooks
pub mod Env
pub mod Load
pub mod Laws
pub mod Runs
pub mod Select
pub mod Cache
pub mod Objects
pub mod CacheKey
pub mod UpsertQuery
pub mod Insert
pub mod Related
pub mod Write
