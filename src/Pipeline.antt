-- ===== src/Pipeline.antt =====
-- The package pipeline/: see the header of the library for its parts.
pub mod Errors
pub mod State
pub mod Paths
pub mod Compact
pub mod Definition
pub mod Machine
pub mod Deferral
pub mod Deferring
pub mod Backoff
pub mod Journaling
pub mod Resumption
pub mod Versions
pub mod Completion
pub mod Validate
pub mod Helpers
pub mod Engine
pub mod Protocol
pub mod Rollback
mod Samples
mod Runs
mod Examples
