-- ===== src/FakeExecutor.antt =====
-- The in-memory executor of executors/fake-executor.ts.
pub mod Maps
pub mod State
pub mod Dispatch
pub mod Growth
pub mod Operations
pub mod Irrevocable
