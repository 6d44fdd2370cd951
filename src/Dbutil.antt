-- ===== src/Dbutil.antt =====
-- The package dbutil/: the page arithmetic; its JSON, durations and transactions are calls of other packages.
pub mod Pagination
mod Examples
