-- ===== src/Api.antt =====
-- The custom resources of `api/` and what the program uses of Kubernetes' own objects.
pub mod Meta
pub mod Policy
pub mod Report
pub mod Scheme
pub mod Tool
pub mod Trivy
pub mod Workload
