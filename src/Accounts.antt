-- ===== src/Accounts.antt =====
-- Unlinking and publishing connected accounts: backend/src/core/services/account-connection.service.ts
-- over core/repositories/connected-account.repository.ts.
pub mod Types
pub mod Tokens
pub mod Sealing
pub mod Connect
pub mod Ownership
pub mod Flows
pub mod Repository
pub mod Service
pub mod Logins
pub mod Unlinking
pub mod Races
pub mod Visibility
pub mod Tests
