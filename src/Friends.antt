-- ===== src/Friends.antt =====
-- backend/src/api/routes/friends.routes.ts over core/repositories/friend.repository.ts.
pub mod Schema
pub mod Repository
pub mod Routes
pub mod Counting
pub mod Invariant
pub mod Handlers
pub mod Outcomes
pub mod Tests
