-- ===== src/Cache.antt =====
-- frontend/src/lib/query/social-cache.ts: the optimistic updates of the query cache.
pub mod Queries
pub mod Notifications
pub mod Friends
pub mod Laws
pub mod Tests
