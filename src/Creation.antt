-- ===== src/Creation.antt =====
-- Creation of a dataset version: modules/dataset-version (dataset-version.service.ts and
-- dataset-version.repository.ts).
pub mod Service
pub mod Safety
pub mod Durable
