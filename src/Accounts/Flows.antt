-- ===== src/Accounts/Flows.antt =====
-- Connecting and reconnecting an account: the rest of account-connection.service.ts.
pub mod State
pub mod Service
pub mod Link
pub mod Start
pub mod Genuine
pub mod Passing
pub mod Outcome
pub mod Reauth
pub mod Tests
