-- ===== src/Auth.antt =====
-- src/modules/auth: sessions, accounts, e-mail verification and password reset.
pub mod Successor
pub mod Tokens
pub mod Rotation
pub mod EmailTokens
pub mod Registration
pub mod Session
pub mod Verification
