-- ===== src/Security.antt =====
-- src/lib/security: the limits on requests.
pub mod RateLimit
pub mod Examples
