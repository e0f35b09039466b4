-- ===== src/Api.antt =====
-- internal/api/: the gRPC user service.
pub mod Users
pub mod Service
pub mod Shown
pub mod Answers
pub mod Referrer
