-- ===== src/Middleware.antt =====
-- worker/src/middleware: the guards in front of the handlers.
pub mod ProgressFloor
pub mod BudgetGuard
pub mod RateLimit
pub mod Session
