-- ===== src/Trace/Session/Loop.antt =====
-- internal/trace/session.go: `run`, the loop of a run, over a script of what happens to it.
use prober.Prelude.{
  ℕ, ◌+◌, ◌*◌, Bool, true, false, ◌&&◌, ◌==◌, List, [], ◌∷◌, String, Option, none, some,
  if◌then◌else◌,
}
use prober.Netip.{Addr}
use prober.Trace.Probe.{Reply}
use prober.Trace.Spec.{Spec, icmp}
use prober.Trace.Session.State.{
  Session, started, failed, Run, ok, fatal, panic, emit, max_ttl, cycle_count, new_session,
}
use prober.Trace.Session.Report.{try_emit, flush}
use prober.Trace.Session.Receiving.{handle_replies, expire, cleanup}
use prober.Trace.Session.Sending.{Outcome, send_due}

-- The case that `select` took: the cancellation, which it need not take at once, the first reply and those
-- behind it in the channel, or the timer.
pub data Wake : Type 0 where
  cancel timer : Wake
  arrive : Reply → List Reply → Wake

-- One turn of the loop: the instant that it reads, the names known then, and what wakes it.
pub record Turn : Type 0 where
  pub now : ℕ
  pub names : Addr → String
  pub wake : Wake

-- Where a run stands: between turns, returned without an error or with one, or stopped by a panic.
pub data Status : Type 0 where
  running returned errored : Session → Status
  crashed : Status

abbrev pub and_then : Run Session → (Session → Status) → Status
and_then (ok s) k = k s
and_then (fatal s) k = errored (cleanup (emit failed s))
and_then panic k = crashed

-- More rounds than one call of `sendDue` can make.
abbrev pub rounds : Session → ℕ
rounds s = (cycle_count s + 1) * (max_ttl s + 2)

abbrev pub is_empty : List ℕ → Bool
is_empty [] = true
is_empty (p ∷ ps) = false

abbrev pub is_over : Session → Bool
is_over s = s.sending_done && is_empty s.queue

unfoldable pub finish : (Addr → String) → Bool → Session → Status
finish names cancelled s = and_then (flush names cancelled s) (λ t. returned (cleanup t))

unfoldable pub woken : (Addr → String) → Wake → Session → Status
unfolding finish
woken names cancel s = finish names true s
woken names timer s = running s
woken names (arrive r rs) s = running (handle_replies (r ∷ rs) s)

unfoldable pub turn : (ℕ → Outcome) → Turn → Session → Status
unfolding woken finish
turn wire t s = and_then (send_due t.names wire t.now (rounds s) s) λ s1.
    and_then (try_emit t.names (expire t.now s1))
      λ s2. if is_over s2 then finish t.names false s2 else woken t.names t.wake s2

unfoldable pub run_turns : (ℕ → Outcome) → List Turn → Status → Status
unfolding turn
run_turns wire [] st = st
run_turns wire (t ∷ ts) (running s) = run_turns wire ts (turn wire t s)
run_turns wire (t ∷ ts) (returned s) = returned s
run_turns wire (t ∷ ts) (errored s) = errored s
run_turns wire (t ∷ ts) crashed = crashed

-- The start of the run at `now`, with the ICMP identifier that the engine gave.
unfoldable pub begin_run : ℕ → ℕ → Spec → Session
unfolding new_session emit
begin_run now id spec = record (emit (started spec) (new_session spec)) {
  icmp_id = id;
  cycle_start = now;
  next_send_at = now;
}

-- `alloc` is what `allocID` returns; only an ICMP run asks for an identifier.
unfoldable pub run : (ℕ → Outcome) → Option ℕ → ℕ → Spec → List Turn → Status
unfolding begin_run run_turns
run wire none now spec ts =
    if spec.protocol == icmp
    then errored (emit failed (new_session spec))
    else run_turns wire ts (running (begin_run now 0 spec))
run wire (some id) now spec ts =
    run_turns wire ts (running (begin_run now (if spec.protocol == icmp then id else 0) spec))
