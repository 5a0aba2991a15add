-- ===== src/Trace/Session/Sends.antt =====
-- One send of internal/trace/session.go keeps the cycle that it belongs to.
use prober.Prelude.{ℕ, ◌≡◌, ◌≤◌, refl, subst, true, false, Option, none, some, All-append}
use prober.Prelude.Maps.{lookup, nat_eq}
use prober.Trace.Session.State.{Session, CycleState, Run, need_cycle, first_ttl}
use prober.Trace.Session.Sending.{Outcome, left, refused, send, one_more_out, lose_sample}
use prober.Trace.Session.Invariant.{Safe}
use prober.Trace.Session.Kept.{IsBookkeeping, update_found-IsLedger, update_found-sending}
use prober.Trace.Session.Phases.{InCycle}

pub need_cycle-Safe :
    (P : Session → Type 0) (n : ℕ) (k : CycleState → Run Session) (o : Option CycleState)
    (c : CycleState)
    → o ≡ some c
    → Safe P (k c)
    → Safe P (need_cycle n k o)
need_cycle-Safe P n k none c e h = cc
need_cycle-Safe P n k (some d) c e h =
    let q : c ≡ d = cc in subst (λ (x : CycleState). Safe P (k x)) q h

pub record Sent (s t : Session) : Type 0 where
  pub still : InCycle t
  pub kept_idx : t.send_idx ≡ s.send_idx
  pub kept_ttls : t.cycle_ttls ≡ s.cycle_ttls
  pub kept_cycle : t.cycle ≡ s.cycle
  pub kept_spec : t.spec ≡ s.spec

one_more_out-IsBookkeeping : IsBookkeeping one_more_out
one_more_out-IsBookkeeping = record {
  number_kept = λ c. refl;
  ttls_kept = λ c. refl;
  sending_kept = λ c. refl;
}

lose_sample-IsBookkeeping : (ttl : ℕ) → IsBookkeeping (lose_sample ttl)
lose_sample-IsBookkeeping ttl = record {
  number_kept = λ c. refl;
  ttls_kept = λ c. refl;
  sending_kept = λ c. refl;
}

pub send-Safe :
    (o : Outcome) (ttl : ℕ) (s : Session)
    → InCycle s
    → first_ttl s ≤ ttl
    → Safe (Sent s) (send o ttl s)
unfolding send
send-Safe (left port sent_at) ttl s v h =
    need_cycle-Safe (Sent s) s.cycle _ (lookup s.cycle s.cycles) v.current.0 v.current.1 (record {
      still = record {
        inv = record {
          effective = v.inv.effective;
          ledger =
              update_found-IsLedger _ one_more_out-IsBookkeeping s.cycle s.cycles s.next_emit
                s.cycle v.inv.ledger;
          emit_pos = v.inv.emit_pos;
          emit_le = v.inv.emit_le;
          log = v.inv.log;
          reached = v.inv.reached;
          probes_above = All-append _ s.heap _ v.inv.probes_above (h, tt);
          ttls_above = v.inv.ttls_above;
        };
        in_range = v.in_range;
        from_first = v.from_first;
        few = v.few;
        current =
            update_found-sending _ one_more_out-IsBookkeeping s.cycle s.cycles s.cycle v.current.0
              v.current.1 v.current.2;
        not_done = v.not_done;
        upto_count = v.upto_count;
      };
      kept_idx = refl;
      kept_ttls = refl;
      kept_cycle = refl;
      kept_spec = refl;
    })
send-Safe (refused stage true) ttl s v h =
    need_cycle-Safe (Sent s) s.cycle _ (lookup s.cycle s.cycles) v.current.0 v.current.1 (record {
      still = record {
        inv = record {
          effective = v.inv.effective;
          ledger =
              update_found-IsLedger _ (lose_sample-IsBookkeeping ttl) s.cycle s.cycles s.next_emit
                s.cycle v.inv.ledger;
          emit_pos = v.inv.emit_pos;
          emit_le = v.inv.emit_le;
          log = v.inv.log;
          reached = v.inv.reached;
          probes_above = v.inv.probes_above;
          ttls_above = v.inv.ttls_above;
        };
        in_range = v.in_range;
        from_first = v.from_first;
        few = v.few;
        current =
            update_found-sending _ (lose_sample-IsBookkeeping ttl) s.cycle s.cycles s.cycle
              v.current.0 v.current.1 v.current.2;
        not_done = v.not_done;
        upto_count = v.upto_count;
      };
      kept_idx = refl;
      kept_ttls = refl;
      kept_cycle = refl;
      kept_spec = refl;
    })
send-Safe (refused stage false) ttl s v h = v.inv.log
