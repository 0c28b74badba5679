-- ===== src/Auth.antt =====
-- internal/auth: the user store, the failure limiter and the authenticator.
pub mod Limiter
pub mod Store
pub mod Authenticator
