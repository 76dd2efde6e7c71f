-- ===== src/Tests.antt =====
-- Runs of the model on concrete clusters: each applies a theorem where its hypotheses hold.
mod CalmRuns
mod CleanupRuns
mod ClusterRuns
mod ControllerRuns
mod Memory
mod PodRuns
mod PolicyRuns
mod ProgramRuns
mod ProgressRuns
mod ReleaseRuns
mod ReportRuns
mod ReportedRuns
mod Samples
mod Server
mod SystemRuns
mod World
