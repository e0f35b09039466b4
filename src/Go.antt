-- ===== src/Go.antt =====
-- What the modelled code takes from Go and from its imports: error values, results and panics,
-- nullable values, and the parts of third-party packages as one record of operations.
pub mod Error
pub mod Result
pub mod Exec
pub mod Steps
pub mod Null
pub mod Library
