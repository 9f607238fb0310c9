-- ===== src/Session/Locking.antt =====
-- `withSessionLock` of refresh-token.service.ts: what it promises of calls that overlap.
pub mod System
pub mod Queue
pub mod Moves
pub mod Entering
pub mod Leaving
pub mod Invariant
pub mod Exclusion
pub mod Drain
pub mod Tests
