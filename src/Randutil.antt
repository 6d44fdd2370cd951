-- ===== src/Randutil.antt =====
-- The package randutil/: random strings.
pub mod Strings
pub mod Uniform
pub mod Drawing
pub mod Numbers
mod Examples
