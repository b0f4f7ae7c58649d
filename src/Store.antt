-- ===== src/Store.antt =====
-- The PostgreSQL database that the services share, and the environment that a query sees.
pub mod Status
pub mod Tables
pub mod Transaction
pub mod Updates
pub mod Rollback
