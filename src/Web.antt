-- ===== src/Web.antt =====
-- The browser: web/src/lib, and the state of three screens of web/src/screens.
pub mod Settled
pub mod Poll
pub mod Loading
pub mod Page
pub mod Client
pub mod Endpoints
pub mod Monitor
pub mod Discovery
pub mod Mapping
