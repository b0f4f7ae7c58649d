-- ===== src/Examples.antt =====
-- The services run on concrete data, and the theorems applied to it.
pub mod Data
pub mod Runs
pub mod Witnesses
pub mod Executors
pub mod Coordination
pub mod Credentials
pub mod Resets
pub mod Pages
pub mod PublicDemo
