-- ===== src/Auth.antt =====
-- Tokens, passwords, the CSRF check and roles (src/common/auth, src/common/middleware).
pub mod Crypto
pub mod RefreshTokens
pub mod Passwords
pub mod Csrf
pub mod Roles
