-- ===== src/Agent.antt =====
-- internal/agent: the jobs that run at a site, and the monitors that it runs by itself.
pub mod Jobs
pub mod Scheduler
mod Tests
