-- ===== src/Dispatch.antt =====
-- Running a job: modules/calculation-job-run.service.ts and its repository, and the interface of the
-- executor in executors/calculation-executor.ts.
pub mod Types
pub mod Repository
pub mod Service
pub mod Recording
pub mod Run
pub mod Lookups
pub mod Safety
pub mod Keeping
pub mod RunHeld
pub mod Durable
pub mod Routing
pub mod Opened
