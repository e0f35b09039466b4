-- ===== src/Tests.antt =====
-- The theorems of the other modules at concrete inputs: an in-memory database of one user, or of
-- several, and the services around it.
pub mod Memory
pub mod Table
pub mod Fixture
pub mod Reads
pub mod Wire
pub mod Writes
pub mod Concurrent
pub mod Linked
pub mod Witnesses
