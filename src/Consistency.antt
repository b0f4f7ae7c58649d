-- ===== src/Consistency.antt =====
-- An invariant of the dataset versions, jobs and attempts, and the changes of rows that the services
-- make.
pub mod Invariant
pub mod Move
pub mod Status
pub mod Insert
pub mod Version
pub mod Resolve
pub mod Keeps
pub mod Create
