-- ===== src/Auth.antt =====
-- lib/auth: the limit on failed logins.
pub mod RateLimit
