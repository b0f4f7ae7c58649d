-- ===== src/DemoSession/Queues.antt =====
-- What the coordinator of demo-session.coordinator.ts keeps true of its queues, and what follows.
pub mod Operations
pub mod Invariant
pub mod Phases
pub mod Settle
pub mod Added
pub mod Admission
pub mod Accounts
pub mod Resets
pub mod Steps
pub mod Safety
pub mod Progress
