-- ===== src/Backend.antt =====
-- internal/backend: the central component, between the agents and the browser.
pub mod Run
pub mod Config
pub mod Registry
pub mod Gateway
pub mod Sink
mod Tests
