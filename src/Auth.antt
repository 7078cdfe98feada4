-- ===== src/Auth.antt =====
-- worker/src/auth and worker/src/routes/auth.ts: sessions and signing in.
pub mod Session
pub mod DevBypass
pub mod Login
pub mod Jwt
pub mod Oidc
pub mod Access
