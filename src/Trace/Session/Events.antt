-- ===== src/Trace/Session/Events.antt =====
-- The events of whole runs of internal/trace/session.go: no run panics, and every run that has ended
-- has emitted its start, the cycles in order and one last event.
use prober.Prelude.{
  range_from, ℕ, ◌-◌, ◌≡◌, refl, ap, ◌∙◌, Bool, true, false, String, List, [], ◌∷◌, ◌++◌, map,
  arith, Bool-cases, Option-cases, inl, inr, if◌then◌else◌, get_elem?,
}
use prober.Prelude.Int.{pos_part}
use prober.Prelude.Maps.{Map}
use prober.Netip.{Addr}
use prober.Trace.Probe.{ProbeKey}
use prober.Trace.Spec.{Spec}
use prober.Trace.Spec.Bounds.{IsEffective}
use prober.Trace.Session.State.{
  Session, Cycle, Event, started, cycle_done, finished, failed, emit, settle, Run, ok, fatal, panic,
  cycle_count, new_session,
}
use prober.Trace.Session.Report.{try_emit, force_emit, flush}
use prober.Trace.Session.Receiving.{expire, settle_all, cleanup}
use prober.Trace.Session.Sending.{Outcome, send_due}
use prober.Trace.Session.Loop.{
  Turn, Wake, cancel, timer, arrive, Status, running, returned, errored, crashed, and_then, rounds,
  is_over, finish, woken, turn, run_turns, begin_run,
}
use prober.Trace.Session.Ledger.{empty-IsLedger}
use prober.Trace.Session.Invariant.{Inv, Log, Safe, >>=-Safe}
use prober.Trace.Session.Emits.{Forced, force_emit-Safe, Emitted, try_emit-Safe}
use prober.Trace.Session.Kept.{Kept-trans, Emitted-Kept, handle_replies-Kept, expire-Kept}
use prober.Trace.Session.Phases.{Phase, between, in_cycle, Phase-Inv, effective-Bounded}
use prober.Trace.Session.Runs.{Caught, send_due-Safe, budget-lt-rounds, Kept-Phase}

-- The events of a run that has ended by `last`: the start, the cycles 1 to `n` in order, and `last`.
pub record Transcript (spec : Spec) (last : Event) (n : ℕ) (es : List Event) : Type 0 where
  pub reports : List Cycle
  pub shape : es ≡ started spec ∷ (map cycle_done reports ++ last ∷ [])
  pub in_order : map (λ (c : Cycle). c.number) reports ≡ range_from 1 n

-- A run that was not cancelled has reported every cycle that its spec asks for.
pub record IsComplete (spec : Spec) (s : Session) : Type 0 where
  pub cancelled : Bool
  pub count : ℕ
  pub transcript : Transcript spec (finished cancelled) count s.emitted
  pub all_cycles : cancelled ≡ false → count ≡ pos_part spec.cycles

abbrev pub Good : Spec → Status → Type 0
Good spec (running s) = Phase s × (s.spec ≡ spec)
Good spec (returned s) = IsComplete spec s
Good spec (errored s) = (n : ℕ) × Transcript s.spec failed n s.emitted
Good spec crashed = ⊥

settle_all-emitted : (m : Map ProbeKey ℕ) (s : Session) → (settle_all m s).emitted ≡ s.emitted
unfolding settle_all settle
settle_all-emitted [] s = refl
settle_all-emitted ((k, ptr) ∷ rest) s = elim (Option-cases (get_elem? s.heap ptr)) [
  | inl e ↦ rw (e, settle_all) (settle_all-emitted rest s)
  | inr (p, e) ↦ rw (e, settle_all) (settle_all-emitted rest (settle ptr p s))
]

settle_all-spec : (m : Map ProbeKey ℕ) (s : Session) → (settle_all m s).spec ≡ s.spec
unfolding settle_all settle
settle_all-spec [] s = refl
settle_all-spec ((k, ptr) ∷ rest) s = elim (Option-cases (get_elem? s.heap ptr)) [
  | inl e ↦ rw (e, settle_all) (settle_all-spec rest s)
  | inr (p, e) ↦ rw (e, settle_all) (settle_all-spec rest (settle ptr p s))
]

cleanup-spec : (s : Session) → (cleanup s).spec ≡ s.spec
unfolding cleanup
cleanup-spec s = settle_all-spec s.probes s

cleanup-emitted : (s : Session) → (cleanup s).emitted ≡ s.emitted
unfolding cleanup
cleanup-emitted s = settle_all-emitted s.probes s

-- The last event ends the log.
close-Log :
    (spec : Spec) (lo : ℕ) (es : List Event) (last : Event)
    → Log spec lo es
    → Transcript spec last (lo - 1) (es ++ last ∷ [])
close-Log spec lo es last v = record {
  reports = v.reports;
  shape = rw v.shape refl;
  in_order = v.in_order;
}

-- An error anywhere in a turn ends the run in good order.
and_then-Good :
    (spec : Spec) (P : Session → Type 0) (m : Run Session) (k : Session → Status)
    → Safe P m
    → ((s : Session) → P s → Good spec (k s))
    → Good spec (and_then m k)
unfolding emit
and_then-Good spec P (ok s) k h f = f s h
and_then-Good spec P (fatal s) k h f = (
  s.next_emit - 1,
  rw (cleanup-spec (emit failed s), cleanup-emitted (emit failed s))
      (close-Log s.spec s.next_emit s.emitted failed h),
)
and_then-Good spec P panic k h f = absurd h

module _ (names : Addr → String) (spec : Spec) where
  flushed :
      (cancelled : Bool) (s t : Session)
      → s.spec ≡ spec
      → (cancelled ≡ false → s.cycle ≡ cycle_count s)
      → Forced s.cycle s.cycle s t
      → IsComplete spec (cleanup (emit (finished cancelled) t))
  unfolding emit
  flushed cancelled s t e done f =
      let log : Log spec t.next_emit t.emitted = rw (← e, ← f.same.same_spec) f.inv.log in
      record {
        cancelled = cancelled;
        count = t.next_emit - 1;
        transcript =
            rw (cleanup-emitted (emit (finished cancelled) t))
              (close-Log spec t.next_emit t.emitted (finished cancelled) log);
        all_cycles = λ h. omega (arith, f.next, done h, ap (λ (p : Spec). pos_part p.cycles) e);
      }

  finish-Good :
      (cancelled : Bool) (s : Session)
      → Inv s
      → s.spec ≡ spec
      → (cancelled ≡ false → s.cycle ≡ cycle_count s)
      → Good spec (finish names cancelled s)
  unfolding finish flush
  finish-Good cancelled s v e done =
      and_then-Good spec
        (λ u. (t : Session) × Forced s.cycle s.cycle s t × (u ≡ emit (finished cancelled) t))
        (flush names cancelled s) _
        (>>=-Safe (Forced s.cycle s.cycle s) _ (force_emit names s.cycle s) _
          (force_emit-Safe names s.cycle s.cycle (omega arith) s v v.emit_le) λ t f. (t, f, refl))
        (λ u w. rw w.2 (flushed cancelled s w.0 e done w.1))

  woken-Good : (w : Wake) (s : Session) → Phase s → s.spec ≡ spec → Good spec (woken names w s)
  unfolding woken
  woken-Good cancel s v e = finish-Good true s (Phase-Inv s v) e (λ h. cc)
  woken-Good timer s v e = (v, e)
  woken-Good (arrive r rs) s v e =
      let k = handle_replies-Kept s.cycle (r ∷ rs) s (Phase-Inv s v) in
      (Kept-Phase s _ v k, k.kept_spec ∙ e)

over_at_end : (s : Session) → Phase s → is_over s ≡ true → s.cycle ≡ cycle_count s
over_at_end s (between b) h = ground (arith, b.left_or_done)
over_at_end s (in_cycle p v) h = ground (arith, v.not_done)

module _ (wire : ℕ → Outcome) (spec : Spec) where
  turn-Good : (t : Turn) (s : Session) → Phase s → s.spec ≡ spec → Good spec (turn wire t s)
  unfolding turn
  turn-Good t s v e =
      and_then-Good spec (Caught t.now s) (send_due t.names wire t.now (rounds s) s) _
        (send_due-Safe t.names wire t.now (rounds s) s v (budget-lt-rounds s v))
        λ s1 c.
          let s2 = expire t.now s1 in
          let k = expire-Kept s1.cycle t.now s1 (Phase-Inv s1 c.phase) in
          and_then-Good spec (Emitted s1.cycle s2) (try_emit t.names s2) _
            (try_emit-Safe t.names s1.cycle s2 k.inv)
            λ s3 d.
              let k2 = Kept-trans s1.cycle s1 s2 s3 k (Emitted-Kept s1.cycle s2 s3 d) in
              let v3 = Kept-Phase s1 s3 c.phase k2 in
              over_or_woken t s3 v3 (k2.kept_spec ∙ (c.kept_spec ∙ e))
    where
      over_or_woken :
          (u : Turn) (x : Session)
          → Phase x
          → x.spec ≡ spec
          → Good spec (if is_over x then finish u.names false x else woken u.names u.wake x)
      over_or_woken u x v3 e3 = elim (Bool-cases (is_over x)) [
        | inl over ↦
            rw over
              (finish-Good u.names spec false x (Phase-Inv x v3) e3 (λ h. over_at_end x v3 over))
        | inr more ↦ rw more (woken-Good u.names spec u.wake x v3 e3)
      ]

  pub run_turns-Good :
      (ts : List Turn) (st : Status) → Good spec st → Good spec (run_turns wire ts st)
  unfolding run_turns
  run_turns-Good [] st h = h
  run_turns-Good (t ∷ ts) (running s) h = run_turns-Good ts (turn wire t s) (turn-Good t s h.0 h.1)
  run_turns-Good (t ∷ ts) (returned s) h = h
  run_turns-Good (t ∷ ts) (errored s) h = h
  run_turns-Good (t ∷ ts) crashed h = h

pub begin_run-Phase : (now id : ℕ) (spec : Spec) → IsEffective spec → Phase (begin_run now id spec)
unfolding begin_run
begin_run-Phase now id spec v = between (record {
  inv = record {
    effective = v;
    ledger = empty-IsLedger;
    emit_pos = omega arith;
    emit_le = omega arith;
    log = record { reports = []; shape = refl; in_order = refl };
    reached = inl refl;
    probes_above = tt;
    ttls_above = tt;
  };
  at_start = refl;
  left_or_done = inl (refl, (effective-Bounded (new_session spec) v).count_pos);
})
