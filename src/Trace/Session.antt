-- ===== src/Trace/Session.antt =====
-- internal/trace/session.go: one run of the probing engine.
pub mod Ledger
pub mod Invariant
pub mod Emits
pub mod Kept
pub mod Phases
pub mod Begin
pub mod Sends
pub mod Rounds
pub mod Runs
pub mod Events
pub mod Endings
pub mod State
pub mod Report
pub mod Sending
pub mod Receiving
pub mod Loop
