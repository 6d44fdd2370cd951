-- ===== src/Workflow.antt =====
-- The package workflow/: stages of steps that run in order, with retries, hooks, snapshots,
-- navigation and compensation.
pub mod Errors
pub mod State
pub mod Model
pub mod Policies
pub mod Snapshots
pub mod Current
pub mod Init
pub mod Steps
pub mod Runs
pub mod Returning
pub mod Preserving
pub mod Reporting
pub mod Failing
pub mod Crashing
pub mod Attempts
mod Samples
mod Examples
