-- ===== src/Httpx.antt =====
-- internal/httpx: what a request carries through its context.
pub mod Context
pub mod Message
pub mod Middleware
