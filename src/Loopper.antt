-- ===== src/Loopper.antt =====
-- The package loopper/: a function that runs again and again, never twice at once, until it is stopped.
pub mod Model
pub mod Invariant
pub mod Waiting
mod Examples
