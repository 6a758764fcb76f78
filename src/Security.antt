-- ===== src/Security.antt =====
-- internal/security
pub mod Jwt
