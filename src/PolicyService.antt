-- ===== src/PolicyService.antt =====
-- pkg/policyservice: signed policy bundles, the loader that verifies them, and the store that names
-- the active bundle in each record. Keys and their files (PEM, X.509) and the writing of a manifest
-- are not modelled.
pub mod Bundle
pub mod Loader
