-- ===== src/Report.antt =====
-- The report handlers of internal/report.
pub mod Calm
pub mod Flatten
pub mod Sound
pub mod Trivy
pub mod Writes
pub mod Falco
pub mod Litmus
pub mod Pods
