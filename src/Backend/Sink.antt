-- ===== src/Backend/Sink.antt =====
-- internal/backend/monitorsink.go: the results of the monitors that agents run by themselves.
pub mod State
pub mod Stream
pub mod Events
pub mod Changes
pub mod Handlers
pub mod Subscribers
pub mod Readers
pub mod Channels
pub mod Delivery
pub mod Aggregates
pub mod Windows
mod Tests
