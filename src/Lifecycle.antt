-- ===== src/Lifecycle.antt =====
-- The lifecycle commands of a dataset version: modules/dataset-version/dataset-version-lifecycle
-- (service and repository).
pub mod Service
pub mod Safety
pub mod Durable
