-- ===== src/Trace/Session/Invariant.antt =====
-- What holds of the state of internal/trace/session.go between two operations, and that reporting
-- cycles keeps it.
use prober.Prelude.{
  range_from, range_from-snoc, ℕ, suc, ◌+◌, ◌-◌, ◌≡◌, ◌≢◌, ◌≤◌, refl, sym, ap, ◌∙◌, ◌⊎◌, List, [],
  ◌∷◌, ◌++◌, map, some, arith, All, String,
}
use mathlib.Core.List.{map-append}
use prober.Prelude.Maps.{lookup, delete, nat_eq}
use prober.Netip.{Addr}
use prober.Trace.Spec.{Spec}
use prober.Trace.Spec.Bounds.{IsEffective}
use prober.Trace.Session.State.{
  Session, Probe, CycleState, Cycle, Event, started, cycle_done, Run, ok, fatal, panic, ◌>>=◌,
  first_ttl,
}
use prober.Trace.Session.Report.{last_of, account_target, report_upto, report}
use prober.Trace.Session.Ledger.{IsLedger, delete-IsLedger, first-IsEntry}

-- The events so far: the start, then the cycles 1, 2, … up to the one before `lo`, in order.
pub record Log (spec : Spec) (lo : ℕ) (es : List Event) : Type 0 where
  pub reports : List Cycle
  pub shape : es ≡ started spec ∷ map cycle_done reports
  pub in_order : map (λ (c : Cycle). c.number) reports ≡ range_from 1 (lo - 1)

-- `hi` is the last cycle that has been opened.
pub record InvAt (hi : ℕ) (s : Session) : Type 0 where
  pub effective : IsEffective s.spec
  pub ledger : IsLedger s.next_emit hi s.cycles
  pub emit_pos : 1 ≤ s.next_emit
  pub emit_le : s.next_emit ≤ hi + 1
  pub log : Log s.spec s.next_emit s.emitted
  pub reached : (s.reached_at ≡ 0) ⊎ (first_ttl s ≤ s.reached_at)
  pub probes_above : All (λ (p : Probe). first_ttl s ≤ p.ttl) s.heap
  pub ttls_above : All (λ (t : ℕ). first_ttl s ≤ t) s.cycle_ttls

abbrev pub Inv : Session → Type 0
Inv s = InvAt s.cycle s

-- A step that may end the run with an error satisfies `P`, and does not panic. An error leaves the
-- events in order.
abbrev pub Safe : (Session → Type 0) → Run Session → Type 0
Safe P (ok s) = P s
Safe P (fatal s) = Log s.spec s.next_emit s.emitted
Safe P panic = ⊥

pub >>=-Safe :
    (P Q : Session → Type 0) (m : Run Session) (f : Session → Run Session)
    → Safe P m
    → ((s : Session) → P s → Safe Q (f s))
    → Safe Q (m >>= f)
>>=-Safe P Q (ok s) f h k = k s h
>>=-Safe P Q (fatal s) f h k = h
>>=-Safe P Q panic f h k = absurd h

pub Safe-mono :
    (P Q : Session → Type 0) (m : Run Session) → Safe P m → ((s : Session) → P s → Q s) → Safe Q m
Safe-mono P Q (ok s) h k = k s h
Safe-mono P Q (fatal s) h k = h
Safe-mono P Q panic h k = absurd h

range_from-last :
    (lo n : ℕ) → 1 ≤ lo → n ≡ lo → range_from 1 (lo - 1) ++ n ∷ [] ≡ range_from 1 (lo + 1 - 1)
range_from-last lo n h e =
    ap (λ (x : ℕ). range_from 1 (lo - 1) ++ x ∷ []) (omega arith)
    ∙ (range_from-snoc 1 (lo - 1) ∙ ap (range_from 1) {x = suc (lo - 1)} (omega arith))

-- Reporting the cycle `lo` extends the log.
Log-report :
    (spec : Spec) (lo : ℕ) (es : List Event) (c : Cycle)
    → 1 ≤ lo
    → c.number ≡ lo
    → Log spec lo es
    → Log spec (lo + 1) (es ++ cycle_done c ∷ [])
Log-report spec lo es c h num v = record {
  reports = v.reports ++ c ∷ [];
  shape = rw v.shape (
      ap (λ (xs : List Event). started spec ∷ xs) (sym (map-append cycle_done v.reports (c ∷ []))));
  in_order =
      map-append (λ (c : Cycle). c.number) v.reports (c ∷ [])
      ∙ (ap (λ (xs : List ℕ). xs ++ c.number ∷ []) v.in_order ∙ range_from-last lo c.number h num);
}

last_of-some : (ts : List ℕ) → ts ≢ [] → (t : ℕ) × (last_of ts ≡ some t)
last_of-some [] h = absurd (h refl)
last_of-some (t ∷ []) h = (t, refl)
last_of-some (t ∷ u ∷ ts) h = last_of-some (u ∷ ts) (λ e. cc)

-- What reporting leaves alone.
pub record SameSending (s t : Session) : Type 0 where
  pub same_spec : t.spec ≡ s.spec
  pub same_cycle : t.cycle ≡ s.cycle
  pub same_idx : t.send_idx ≡ s.send_idx
  pub same_ttls : t.cycle_ttls ≡ s.cycle_ttls
  pub same_done : t.sending_done ≡ s.sending_done
  pub same_heap : t.heap ≡ s.heap
  pub same_queue : t.queue ≡ s.queue

account_target-reached :
    (c : CycleState) (s : Session) (n : ℕ)
    → (s.reached_at ≡ 0) ⊎ (n ≤ s.reached_at)
    → ((account_target c s).reached_at ≡ 0) ⊎ (n ≤ (account_target c s).reached_at)
unfolding account_target
account_target-reached c s n h = ground arith

-- The cycle `next_emit` has been reported.
pub record Reported (hi : ℕ) (s t : Session) : Type 0 where
  pub inv : InvAt hi t
  pub same : SameSending s t
  pub next : t.next_emit ≡ s.next_emit + 1
  pub gone : t.cycles ≡ delete s.next_emit s.cycles

pub SameSending-refl : (s : Session) → SameSending s s
SameSending-refl s = record {
  same_spec = refl;
  same_cycle = refl;
  same_idx = refl;
  same_ttls = refl;
  same_done = refl;
  same_heap = refl;
  same_queue = refl;
}

pub SameSending-trans : (s t u : Session) → SameSending s t → SameSending t u → SameSending s u
SameSending-trans s t u a b = record {
  same_spec = b.same_spec ∙ a.same_spec;
  same_cycle = b.same_cycle ∙ a.same_cycle;
  same_idx = b.same_idx ∙ a.same_idx;
  same_ttls = b.same_ttls ∙ a.same_ttls;
  same_done = b.same_done ∙ a.same_done;
  same_heap = b.same_heap ∙ a.same_heap;
  same_queue = b.same_queue ∙ a.same_queue;
}

module _ (names : Addr → String) (hi : ℕ) (s : Session) (c : CycleState) (v : InvAt hi s)
    (e : lookup s.next_emit s.cycles ≡ some c) where
  report_upto-Reported :
      (n last : ℕ)
      → c.number ≡ n
      → n ≡ s.next_emit
      → Reported hi s (
          report_upto names c
            (account_target c (record s { cycles = delete n s.cycles; next_emit = n + 1 }))
            last)
  unfolding report_upto account_target
  report_upto-Reported n last p q = record {
    inv = record {
      effective = v.effective;
      ledger = rw q (delete-IsLedger s.next_emit hi s.cycles v.ledger);
      emit_pos = omega arith;
      emit_le = omega (arith, first-IsEntry s.next_emit hi s.cycles v.ledger c e);
      log = Log-report s.spec n s.emitted _ (omega arith) p (rw q v.log);
      reached = account_target-reached c s (first_ttl s) v.reached;
      probes_above = v.probes_above;
      ttls_above = v.ttls_above;
    };
    same = record {
      same_spec = refl;
      same_cycle = refl;
      same_idx = refl;
      same_ttls = refl;
      same_done = refl;
      same_heap = refl;
      same_queue = refl;
    };
    next = ap (λ (x : ℕ). x + 1) q;
    gone = ap (λ (x : ℕ). delete x s.cycles) q;
  }

  -- The report of the next cycle goes through.
  pub report-Safe : Safe (Reported hi s) (report names c s)
  unfolding report
  report-Safe =
      let (num, ttls, _) = first-IsEntry s.next_emit hi s.cycles v.ledger c e in
      let (last, is_last) = last_of-some c.ttls ttls in
      rw (is_last, Safe) (report_upto-Reported c.number last refl num)
