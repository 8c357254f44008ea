-- ===== src/Api.antt =====
-- api/v1alpha1: the resources that the control plane reads and writes.
pub mod Policy
pub mod Request
pub mod Samples
pub mod Trust
pub mod Naming
