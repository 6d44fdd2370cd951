-- ===== src/Pipeline/Protocol.antt =====
-- The ledger of snapshots among the calls of a run, by the executor's methods (pipeline/executor.go).
pub mod Ledger
pub mod Rules
pub mod Compensation
pub mod Scopes
pub mod Handlers
pub mod Branching
pub mod Repeating
pub mod Execute
pub mod Run
pub mod Again
