-- ===== src/Controllers.antt =====
-- internal/controllers/: the HTTP handlers of the user API.
pub mod Types
pub mod Contracts
pub mod Request
pub mod Format
pub mod Used
pub mod GetUser
pub mod Shown
pub mod Answers
pub mod Referrer
pub mod Preferred
pub mod Confirmed
pub mod DeleteUser
pub mod SetMigrated
pub mod CheckEmail
