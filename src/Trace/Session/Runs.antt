-- ===== src/Trace/Session/Runs.antt =====
-- Whole runs of internal/trace/session.go: no panic, and the events in order.
use prober.Prelude.{
  ℕ, zero, suc, ◌+◌, ◌-◌, ◌*◌, ◌≡◌, ◌<◌, refl, sym, subst, ◌∙◌, inl, inr, false, String, arith,
  Bool-cases,
}
use prober.Prelude.Maps.{nat_eq}
use prober.Netip.{Addr}
use prober.Trace.Session.State.{Session, max_ttl, cycle_count}
use prober.Trace.Session.Sending.{Outcome, send_round, is_due, send_due}
use prober.Trace.Session.Loop.{rounds}
use prober.Trace.Session.Invariant.{InvAt, Safe, >>=-Safe, Safe-mono}
use prober.Trace.Session.Kept.{Kept}
use prober.Trace.Session.Phases.{Phase, between, in_cycle}
use prober.Trace.Session.Rounds.{budget, Next, send_round-Safe}

-- What `sendDue` leaves behind: a phase, and nothing that is due.
pub record Caught (now : ℕ) (s t : Session) : Type 0 where
  pub phase : Phase t
  pub kept_spec : t.spec ≡ s.spec
  pub nothing_due : is_due now t ≡ false

module _ (names : Addr → String) (wire : ℕ → Outcome) (now : ℕ) where
  -- With more rounds than the budget the loop ends by its own test.
  pub send_due-Safe :
      (fuel : ℕ) (s : Session)
      → Phase s
      → budget s < fuel
      → Safe (Caught now s) (send_due names wire now fuel s)
  unfolding send_due
  send_due-Safe zero s v h = elim h [ ]
  send_due-Safe (suc fuel) s v h = elim (Bool-cases (is_due now s)) [
    | inl due ↦
        rw (due, Safe)
          (>>=-Safe (Next s) (Caught now s) (send_round names wire s) (send_due names wire now fuel)
            (send_round-Safe names wire s v (ground arith))
            λ t n.
              Safe-mono (Caught now t) (Caught now s) (send_due names wire now fuel t)
                (send_due-Safe fuel t n.phase (omega (arith, n.less)))
                (λ u k. record {
                  phase = k.phase;
                  kept_spec = k.kept_spec ∙ n.kept_spec;
                  nothing_due = k.nothing_due;
                }))
    | inr idle ↦ rw (idle, Safe) (record { phase = v; kept_spec = refl; nothing_due = idle })
  ]

product_room : (d r k e : ℕ) → e < k → d * k + e < (d + r + 1) * k
product_room d r k e h = omega arith

below_rounds : (count n k e : ℕ) → e < k → (count - n) * k + e < (count + 1) * k
below_rounds count n k e h =
    let q : count + 1 ≡ (count - n) + (count - (count - n)) + 1 = omega arith in
    rw q (product_room (count - n) (count - (count - n)) k e h)

-- `rounds` are enough.
pub budget-lt-rounds : (s : Session) → Phase s → budget s < rounds s
unfolding budget
budget-lt-rounds s (between b) =
    below_rounds (cycle_count s) s.cycle (max_ttl s + 2) _ (ground (arith, b.at_start))
budget-lt-rounds s (in_cycle h v) =
    below_rounds (cycle_count s) s.cycle (max_ttl s + 2) _ (ground (arith, v.few))

pub Kept-Phase : (s t : Session) → Phase s → Kept s.cycle s t → Phase t
Kept-Phase s t (between b) k = between (record {
  inv = subst (λ (n : ℕ). InvAt n t) (sym k.kept_cycle) k.inv;
  at_start = k.kept_idx ∙ b.at_start;
  left_or_done = rw (k.kept_done, k.kept_cycle, k.kept_spec) b.left_or_done;
})
Kept-Phase s t (in_cycle h v) k = in_cycle (rw k.kept_idx h) (record {
  inv = subst (λ (n : ℕ). InvAt n t) (sym k.kept_cycle) k.inv;
  in_range = rw (k.kept_idx, k.kept_ttls) v.in_range;
  from_first = rw (k.kept_ttls, k.kept_spec) v.from_first;
  few = rw (k.kept_ttls, k.kept_spec) v.few;
  current = rw k.kept_cycle (k.still_sending s.cycle v.current.0 v.current.1 v.current.2);
  not_done = k.kept_done ∙ v.not_done;
  upto_count = rw (k.kept_cycle, k.kept_spec) v.upto_count;
})

-- One call of `sendDue`, between two turns of a run of an accepted spec, ends by its own test: either
-- it leaves the session in a phase of the run, with nothing due, or a send error ends the run, with
-- the events so far in order. It does not panic.
pub send_due-rounds :
    (names : Addr → String) (wire : ℕ → Outcome) (now : ℕ) (s : Session)
    → Phase s
    → Safe (Caught now s) (send_due names wire now (rounds s) s)
send_due-rounds names wire now s v =
    send_due-Safe names wire now (rounds s) s v (budget-lt-rounds s v)
