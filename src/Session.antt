-- ===== src/Session.antt =====
-- backend/src/core/services/refresh-token.service.ts: sessions behind rotating refresh tokens.
pub mod Types
pub mod Store
pub mod Service
pub mod Rotation
pub mod Reuse
pub mod Trace
pub mod Locking
mod Tests
