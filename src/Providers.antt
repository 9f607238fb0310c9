-- ===== src/Providers.antt =====
-- The providers that accounts can be connected with: backend/src/core/providers/provider-registry.ts.
pub mod Types
pub mod Registry
pub mod Names
pub mod Laws
pub mod Tests
