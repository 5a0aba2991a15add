-- ===== src/Trace/Session/Begin.antt =====
-- The beginning of a cycle in internal/trace/session.go's `sendDue`.
use prober.Prelude.{ℕ, ◌+◌, ◌≡◌, ◌≢◌, ◌<◌, refl, ap, ◌∙◌, false, List, [], arith, String, length}
use prober.Prelude.Maps.{lookup-insert_self, insert, nat_eq}
use prober.Prelude.Int.{pos_part}
use prober.Netip.{Addr}
use prober.Trace.Spec.{Spec}
use prober.Trace.Session.State.{Session, cycle_count}
use prober.Trace.Session.Report.{force_emit}
use prober.Trace.Session.Sending.{ttls_for_cycle, open_cycle, begin_cycle}
use prober.Trace.Session.Ledger.{open-IsLedger}
use prober.Trace.Session.Invariant.{InvAt, Inv, Safe, >>=-Safe}
use prober.Trace.Session.Emits.{Forced, force_emit-Safe}
use prober.Trace.Session.Phases.{InCycle, Between, GoodTtls, ttls_for_cycle-GoodTtls}

-- A cycle has begun, and no probe of it has been sent.
pub record Begun (s t : Session) : Type 0 where
  pub opened : InCycle t
  pub at_first : t.send_idx ≡ 0
  pub one_further : t.cycle ≡ s.cycle + 1
  pub kept_spec : t.spec ≡ s.spec

advanced : (s : Session) → Inv s → InvAt s.cycle (record s { cycle = s.cycle + 1 })
advanced s v = record {
  effective = v.effective;
  ledger = v.ledger;
  emit_pos = v.emit_pos;
  emit_le = v.emit_le;
  log = v.log;
  reached = v.reached;
  probes_above = v.probes_above;
  ttls_above = v.ttls_above;
}

not-nil : (ts : List ℕ) → 0 < length ts → ts ≢ []
not-nil ts h e = let q = ap length e in omega arith

-- The new cycle is opened under its number.
open-Begun :
    (s t : Session) (ttls : List ℕ)
    → Between s
    → s.sending_done ≡ false
    → s.cycle < cycle_count s
    → Forced s.cycle s.cycle (record s { cycle = s.cycle + 1 }) t
    → GoodTtls t ttls
    → Begun s
        (record t { cycle_ttls = ttls; cycles = insert t.cycle (open_cycle t.cycle ttls) t.cycles })
open-Begun s t ttls b live left f g = record {
  opened = record {
    inv = record {
      effective = f.inv.effective;
      ledger = rw f.same.same_cycle (
          rw f.next (
            open-IsLedger t.next_emit s.cycle t.cycles f.inv.ledger (open_cycle (s.cycle + 1) ttls)
              f.next refl (not-nil ttls g.at_least)));
      emit_pos = f.inv.emit_pos;
      emit_le = omega (arith, f.next, f.same.same_cycle);
      log = f.inv.log;
      reached = f.inv.reached;
      probes_above = f.inv.probes_above;
      ttls_above = g.above;
    };
    in_range = omega (arith, f.same.same_idx, b.at_start, g.at_least);
    from_first = g.first_of;
    few = g.at_most;
    current = (
      open_cycle t.cycle ttls,
      lookup-insert_self t.cycle (open_cycle t.cycle ttls) t.cycles,
      refl,
    );
    not_done = f.same.same_done ∙ live;
    upto_count =
        omega (arith, f.same.same_cycle, ap (λ (p : Spec). pos_part p.cycles) f.same.same_spec);
  };
  at_first = f.same.same_idx ∙ b.at_start;
  one_further = f.same.same_cycle;
  kept_spec = f.same.same_spec;
}

pub begin_cycle-Safe :
    (names : Addr → String) (s : Session)
    → Between s
    → s.sending_done ≡ false
    → s.cycle < cycle_count s
    → Safe (Begun s) (begin_cycle names s)
unfolding begin_cycle
begin_cycle-Safe names s b live left =
    >>=-Safe (Forced s.cycle s.cycle (record s { cycle = s.cycle + 1 })) (Begun s)
      (force_emit names s.cycle (record s { cycle = s.cycle + 1 })) _
      (force_emit-Safe names s.cycle s.cycle (omega arith) (record s { cycle = s.cycle + 1 })
        (advanced s b.inv) b.inv.emit_le)
      λ t f.
        open-Begun s t (ttls_for_cycle t) b live left f (ttls_for_cycle-GoodTtls t s.cycle f.inv)
