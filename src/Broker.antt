-- ===== src/Broker.antt =====
-- The package broker/: messages handed to the channels of subscribers by one goroutine.
pub mod Model
pub mod Steps
pub mod Handlers
pub mod Closing
pub mod Invariant
pub mod Keeping
pub mod Reaching
mod Examples
