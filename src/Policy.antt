-- ===== src/Policy.antt =====
-- The policy engines of internal/policy.
pub mod Calm
pub mod Trivy
pub mod Falco
pub mod Litmus
pub mod Writes
