-- ===== src/Repository.antt =====
-- internal/repository/postgres.go. The children hold the tables, the statements that write and
-- read them, and what the statements guarantee.
pub mod Schema
pub mod Write
pub mod Read
pub mod Sort
pub mod Claim
pub mod RateLimit
pub mod Machine
pub mod Lifecycle
pub mod Laws
pub mod Errors
