-- ===== src/Api.antt =====
-- The HTTP API (api/src).
pub mod Color
pub mod Errors
pub mod Media
pub mod Shell
pub mod Secrets
pub mod State
pub mod Lifecycle
