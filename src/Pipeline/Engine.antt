-- ===== src/Pipeline/Engine.antt =====
-- pipeline/executor.go, an action of Pipeline.Machine for each method.
pub mod Journal
pub mod Retry
pub mod Lookup
pub mod Compensate
pub mod Sequence
pub mod Handlers
pub mod Branching
pub mod Repeating
pub mod Execute
pub mod Start
