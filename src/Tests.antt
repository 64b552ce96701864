-- ===== src/Tests.antt =====
-- Concrete runs of the modelled code, and each theorem applied to one.
mod JobRuns
mod WorkerRuns
mod OutboxRuns
mod EvidenceRuns
mod ProcessRuns
mod ReportRuns
mod InputRuns
mod AnalysisChecks
