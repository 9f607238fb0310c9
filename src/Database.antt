-- ===== src/Database.antt =====
-- The tables that the repositories of backend/src/core/repositories read and write through Prisma.
pub mod Count
pub mod Table
pub mod Memory
