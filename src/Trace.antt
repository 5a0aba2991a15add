-- ===== src/Trace.antt =====
-- internal/trace: the probing engine.
pub mod Spec
pub mod Stats
pub mod Probe
pub mod Parse
pub mod Engine
pub mod Session
mod Tests
