-- ===== src/OAuth.antt =====
-- The OAuth flows of backend/src/core/services/social-auth.service.ts and
-- account-connection.service.ts: one-time states, PKCE verifiers and signed state values.
pub mod StateStore
pub mod PkceStore
pub mod Once
pub mod Signed
pub mod Tests
