-- ===== src/Trace/Session/Rounds.antt =====
-- The rounds of internal/trace/session.go's `sendDue`: each keeps the phases, none panics, and each
-- uses up a part of a budget, so that the loop ends.
use prober.Prelude.{
  ℕ, zero, suc, ◌+◌, ◌-◌, ◌*◌, ◌≡◌, ◌≢◌, ◌≤◌, ◌<◌, refl, sym, ap, ◌∙◌, ◌⊎◌, inl, inr, Bool, true,
  false, ◌&&◌, String, some, List, [], ◌∷◌, arith, Bool-cases, if◌then◌else◌, ltb→lt, ◌==◌, ==_iff,
  ltb, leb, length, take, get_elem?, All-get_elem?, get_elem?-lt,
}
use prober.Prelude.Maps.{lookup, nat_eq, lookup-insert_self}
use prober.Netip.{Addr}
use prober.Trace.Session.State.{
  Session, update_cycle, update_found, first_ttl, max_ttl, cycle_count,
}
use prober.Trace.Session.Sending.{
  Outcome, set_sending, cut_short, end_cycle, after_send, send_at, send, send_round, send_next,
  begin_cycle,
}
use prober.Trace.Session.Invariant.{Safe, >>=-Safe, Safe-mono}
use prober.Trace.Session.Kept.{KeepsEntry, update_found-entries}
use prober.Trace.Session.Phases.{InCycle, Between, Phase, between, in_cycle}
use prober.Trace.Session.Begin.{Begun, begin_cycle-Safe}
use prober.Trace.Session.Sends.{Sent, send-Safe, need_cycle-Safe}

-- The sending side of a cycle is closed.
pub record Ended (s t : Session) : Type 0 where
  pub after : Between t
  pub kept_cycle : t.cycle ≡ s.cycle
  pub kept_spec : t.spec ≡ s.spec

set_sending-KeepsEntry : (b : Bool) → KeepsEntry (set_sending b)
set_sending-KeepsEntry b = record { number_kept = λ c. refl; some_ttls = λ c h. h }

end_cycle-Safe : (s : Session) → InCycle s → Safe (Ended s) (end_cycle s)
unfolding end_cycle
end_cycle-Safe s v =
    need_cycle-Safe (Ended s) s.cycle _ (lookup s.cycle s.cycles) v.current.0 v.current.1 (record {
      after = record {
        inv = record {
          effective = v.inv.effective;
          ledger =
              update_found-entries _ (set_sending-KeepsEntry false) s.cycle s.cycles s.next_emit
                s.cycle v.inv.ledger;
          emit_pos = v.inv.emit_pos;
          emit_le = v.inv.emit_le;
          log = v.inv.log;
          reached = v.inv.reached;
          probes_above = v.inv.probes_above;
          ttls_above = v.inv.ttls_above;
        };
        at_start = refl;
        left_or_done = done_or_left s.cycle (cycle_count s) s.sending_done v.not_done v.upto_count;
      };
      kept_cycle = refl;
      kept_spec = refl;
    })
  where
    done_or_left :
        (n count : ℕ) (b : Bool)
        → b ≡ false
        → n ≤ count
        → (((if leb count n then true else b) ≡ false) × (n < count))
          ⊎ (((if leb count n then true else b) ≡ true) × (n ≡ count))
    done_or_left n count b e h = ground arith

take-not_nil : (n : ℕ) (ts : List ℕ) → 0 < n → n < length ts → take n ts ≢ []
take-not_nil zero ts h k = elim h [ ]
take-not_nil (suc n) [] h k = elim k [ ]
take-not_nil (suc n) (t ∷ ts) h k = λ e. cc

cut-InCycle :
    (s : Session)
    → 0 < s.send_idx
    → InCycle s
    → InCycle (update_cycle s.cycle (cut_short (take s.send_idx s.cycle_ttls)) s)
unfolding update_cycle
cut-InCycle s h v = record {
  inv = record {
    effective = v.inv.effective;
    ledger =
        update_found-entries _
          (record {
            number_kept = λ c. refl;
            some_ttls = λ c _. take-not_nil s.send_idx s.cycle_ttls h v.in_range;
          })
          s.cycle s.cycles s.next_emit s.cycle v.inv.ledger;
    emit_pos = v.inv.emit_pos;
    emit_le = v.inv.emit_le;
    log = v.inv.log;
    reached = v.inv.reached;
    probes_above = v.inv.probes_above;
    ttls_above = v.inv.ttls_above;
  };
  in_range = v.in_range;
  from_first = v.from_first;
  few = v.few;
  current = (
    cut_short (take s.send_idx s.cycle_ttls) v.current.0,
    rw (v.current.1, update_found) (lookup-insert_self s.cycle _ s.cycles),
    v.current.2,
  );
  not_done = v.not_done;
  upto_count = v.upto_count;
}

-- An upper bound on the rounds that are left.
unfoldable pub budget : Session → ℕ
budget s =
    (cycle_count s - s.cycle) * (max_ttl s + 2)
    + (if s.send_idx == 0 then 0 else length s.cycle_ttls - s.send_idx)

-- After a round: a phase again, with less budget than in the cycle that the round was of.
pub record Round (s t : Session) : Type 0 where
  pub phase : Phase t
  pub kept_spec : t.spec ≡ s.spec
  pub less :
      budget t + s.send_idx + 1 ≤ (cycle_count s - s.cycle) * (max_ttl s + 2) + length s.cycle_ttls

Ended-Round : (s t : Session) → InCycle s → Ended s t → Round s t
unfolding budget
Ended-Round s t v e = record {
  phase = between e.after;
  kept_spec = e.kept_spec;
  less = rw (e.kept_spec, e.kept_cycle, e.after.at_start) (omega (arith, v.in_range));
}

one_sent :
    (p idx len : ℕ)
    → idx + 1 < len
    → p + (if idx + 1 == 0 then 0 else len - (idx + 1)) + idx + 1 ≤ p + len
one_sent p idx len h = ground arith

after_send-Safe : (s : Session) → InCycle s → Safe (Round s) (after_send s)
unfolding after_send end_cycle budget
after_send-Safe s v = elim (Bool-cases (ltb (s.send_idx + 1) (length s.cycle_ttls))) [
  | inl more ↦ rw more (record {
    phase = in_cycle (omega arith) (record {
      inv = record {
        effective = v.inv.effective;
        ledger = v.inv.ledger;
        emit_pos = v.inv.emit_pos;
        emit_le = v.inv.emit_le;
        log = v.inv.log;
        reached = v.inv.reached;
        probes_above = v.inv.probes_above;
        ttls_above = v.inv.ttls_above;
      };
      in_range = ltb→lt _ _ more;
      from_first = v.from_first;
      few = v.few;
      current = v.current;
      not_done = v.not_done;
      upto_count = v.upto_count;
    });
    kept_spec = refl;
    less =
        one_sent ((cycle_count s - s.cycle) * (max_ttl s + 2)) s.send_idx (length s.cycle_ttls)
          (ltb→lt _ _ more);
  })
  | inr last ↦ rw last (
      Safe-mono (Ended s) (Round s) (end_cycle s) (end_cycle-Safe s v) (λ t e. Ended-Round s t v e))
]

-- A TTL beyond the target is met only in the middle of a cycle.
beyond_target :
    (s : Session) (ttl : ℕ)
    → InCycle s
    → get_elem? s.cycle_ttls s.send_idx ≡ some ttl
    → (ltb 0 s.reached_at && ltb s.reached_at ttl) ≡ true
    → 0 < s.send_idx
beyond_target s ttl v e h = elim (Bool-cases (s.send_idx == 0)) [
  | inl zero_ ↦ absurd (at_first ((==_iff s.send_idx 0).0 zero_))
  | inr other ↦ ground arith
]
  where
    at_first : s.send_idx ≡ 0 → ⊥
    at_first z =
        let q : some ttl ≡ some (first_ttl s) =
          sym e ∙ (ap (get_elem? s.cycle_ttls) z ∙ v.from_first) in
        let r : ttl ≡ first_ttl s = cc in ground (arith, r, v.inv.reached)

Sent-Round : (s t u : Session) → Sent s t → Round t u → Round s u
Sent-Round s t u a b = record {
  phase = b.phase;
  kept_spec = b.kept_spec ∙ a.kept_spec;
  less = rw (← a.kept_spec, ← a.kept_cycle, ← a.kept_idx, ← a.kept_ttls) b.less;
}

send_at-Safe :
    (o : Outcome) (s : Session) (ttl : ℕ)
    → InCycle s
    → get_elem? s.cycle_ttls s.send_idx ≡ some ttl
    → Safe (Round s) (send_at o s ttl)
unfolding send_at
send_at-Safe o s ttl v e = elim (Bool-cases (ltb 0 s.reached_at && ltb s.reached_at ttl)) [
  | inl beyond ↦ rw beyond (
      need_cycle-Safe (Round s) s.cycle _ (lookup s.cycle s.cycles) v.current.0 v.current.1
        (cut_lem (beyond_target s ttl v e beyond)))
  | inr within ↦ rw within (
      >>=-Safe (Sent s) (Round s) (send o ttl s) after_send
        (send-Safe o ttl s v (All-get_elem? _ s.cycle_ttls s.send_idx v.inv.ttls_above e))
        λ t a.
          Safe-mono (Round t) (Round s) (after_send t) (after_send-Safe t a.still)
            (λ u b. Sent-Round s t u a b))
]
  where
    cut : Session
    cut = update_cycle s.cycle (cut_short (take s.send_idx s.cycle_ttls)) s

    cut_lem : 0 < s.send_idx → Safe (Round s) (end_cycle cut)
    cut_lem h =
        Safe-mono (Ended cut) (Round s) (end_cycle cut) (end_cycle-Safe cut (cut-InCycle s h v))
          λ t k.
            Ended-Round s t v
              (record { after = k.after; kept_cycle = k.kept_cycle; kept_spec = k.kept_spec })

send_next-Safe : (wire : ℕ → Outcome) (s : Session) → InCycle s → Safe (Round s) (send_next wire s)
unfolding send_next
send_next-Safe wire s v =
    let (ttl, e) = get_elem?-lt s.cycle_ttls s.send_idx v.in_range in
    rw (e, Safe) (send_at-Safe (wire s.attempts) s ttl v e)

-- After a round of the loop: a phase again, and less budget.
pub record Next (s t : Session) : Type 0 where
  pub phase : Phase t
  pub kept_spec : t.spec ≡ s.spec
  pub less : budget t < budget s

first_round :
    (count n k len b : ℕ)
    → n < count
    → len ≤ k
    → b + 0 + 1 ≤ (count - (n + 1)) * (k + 2) + len
    → b < (count - n) * (k + 2) + 0
first_round count n k len b h l e =
    let a = count - (n + 1) in let q : count - n ≡ a + 1 = omega arith in rw q (omega (arith, e))

later_round :
    (p idx len b : ℕ)
    → 0 < idx
    → idx < len
    → b + idx + 1 ≤ p + len
    → b < p + (if idx == 0 then 0 else len - idx)
later_round p idx len b h k e = ground arith

Begun-Next :
    (s t u : Session) → Between s → s.cycle < cycle_count s → Begun s t → Round t u → Next s u
unfolding budget
Begun-Next s t u b left g r = record {
  phase = r.phase;
  kept_spec = r.kept_spec ∙ g.kept_spec;
  less = rw b.at_start (
      first_round (cycle_count s) s.cycle (max_ttl s) (length t.cycle_ttls) _ left
        (rw (← g.kept_spec) g.opened.few) (rw (g.at_first, g.one_further, g.kept_spec) at r.less));
}

Round-Next : (s t : Session) → 0 < s.send_idx → InCycle s → Round s t → Next s t
unfolding budget
Round-Next s t h v r = record {
  phase = r.phase;
  kept_spec = r.kept_spec;
  less = later_round _ s.send_idx (length s.cycle_ttls) _ h v.in_range r.less;
}

pub send_round-Safe :
    (names : Addr → String) (wire : ℕ → Outcome) (s : Session)
    → Phase s
    → s.sending_done ≡ false
    → Safe (Next s) (send_round names wire s)
unfolding send_round
send_round-Safe names wire s (between b) live =
    let q : (s.send_idx == 0) ≡ true = (==_iff s.send_idx 0).1 b.at_start in
    rw (q, Safe)
      (>>=-Safe (Begun s) (Next s) (begin_cycle names s) (send_next wire)
        (begin_cycle-Safe names s b live left)
        λ t g.
          Safe-mono (Round t) (Next s) (send_next wire t) (send_next-Safe wire t g.opened)
            (λ u r. Begun-Next s t u b left g r))
  where
    left : s.cycle < cycle_count s
    left = ground (arith, b.left_or_done)
send_round-Safe names wire s (in_cycle h v) live =
    let q : (s.send_idx == 0) ≡ false = ground arith in
    rw (q, Safe)
      (Safe-mono (Round s) (Next s) (send_next wire s) (send_next-Safe wire s v)
        (λ t r. Round-Next s t h v r))
