-- ===== src/Social.antt =====
-- Login by Google or Discord: backend/src/core/services/social-auth.service.ts.
pub mod Types
pub mod State
pub mod Usernames
pub mod Service
pub mod Answers
pub mod Linking
pub mod Outcome
pub mod Replay
pub mod Genuine
pub mod Start
pub mod Registrable
pub mod Tests
