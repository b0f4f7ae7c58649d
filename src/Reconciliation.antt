-- ===== src/Reconciliation.antt =====
-- Reconciliation of attempts with the executor: modules/calculation-job-reconciliation.service.ts and
-- its repository.
pub mod Repository
pub mod Service
pub mod Safety
pub mod Terminal
pub mod Durable
