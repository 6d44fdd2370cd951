-- ===== src/Syncutil.antt =====
-- The package syncutil/: containers under a lock, each call a section of it.
pub mod Slices
pub mod Maps
pub mod Finite
mod Examples
