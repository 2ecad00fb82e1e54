-- ===== src/Auth.antt =====
-- The guards of requests and the session store, of nest/auth/src.
pub mod SessionGuard
pub mod SessionStore
pub mod ApiKeyGuard
