-- ===== src/Preparation.antt =====
-- Preparation of a run: modules/calculation-job-preparation.service.ts and its repository.
pub mod Types
pub mod Repository
pub mod Service
pub mod Lookups
pub mod Safety
pub mod Freezing
pub mod Keeping
pub mod Numbers
pub mod Durable
pub mod FrozenInputs
