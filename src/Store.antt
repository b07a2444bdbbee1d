-- ===== src/Store.antt =====
-- The database: the rows of each table, and what the services take from TypeORM.
pub mod Entities
pub mod Queries
pub mod Monad
pub mod Rows
pub mod Distinct
pub mod Replaced
