-- ===== src/Retry.antt =====
-- The package retry/: a function is called again until it succeeds, by one of three policies.
pub mod Policy
pub mod Delay
pub mod Loop
pub mod Attempts
pub mod Endless
pub mod Options
mod Examples
