-- ===== src/Presence.antt =====
-- frontend/src/services/presence.ts and frontend/src/store/presence-store.ts: the realtime
-- connection of the browser, and the store of the friends' presence.
pub mod Connection
pub mod Events
pub mod Backoff
pub mod Single
pub mod Store
mod Tests
