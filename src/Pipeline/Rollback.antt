-- ===== src/Pipeline/Rollback.antt =====
-- What runCompensation undoes (pipeline/executor.go).
pub mod Plan
pub mod Compensators
pub mod Loop
pub mod Entry
pub mod Compaction
