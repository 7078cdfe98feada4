-- ===== src/Routes.antt =====
-- worker/src/routes: the handlers.
pub mod Jobs
pub mod Vm
pub mod Requests
pub mod Passwords
pub mod Audit
pub mod Users
pub mod Mapping
pub mod Reports
pub mod Config
pub mod Tenants
pub mod Discovery
pub mod Provision
pub mod Gate
