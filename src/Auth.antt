-- ===== src/Auth.antt =====
-- Refresh tokens and invite codes, backend/internal/auth.
pub mod Tokens
pub mod Invites
pub mod Reuse
pub mod Redemption
mod Tests
