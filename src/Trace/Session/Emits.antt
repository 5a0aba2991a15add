-- ===== src/Trace/Session/Emits.antt =====
-- The loops of internal/trace/session.go that report cycles, `tryEmit` and `forceEmit`: they never
-- panic, keep the invariant and leave the sending side alone.
use prober.Prelude.{
  ℕ, zero, suc, ◌+◌, ◌-◌, ◌≡◌, ◌≤◌, ◌<◌, inl, inr, true, false, none, some, arith, [], ◌∷◌, String,
  Bool-cases, Option-cases, length, le→leb,
}
use prober.Prelude.Maps.{Map, lookup, delete, nat_eq, lookup-delete, ◌=?◌}
use prober.Netip.{Addr}
use prober.Trace.Session.State.{Session, CycleState}
use prober.Trace.Session.Report.{
  report, complete_next, try_emit_loop, try_emit, force_emit_loop, force_emit,
}
use prober.Trace.Session.Invariant.{
  InvAt, Safe, >>=-Safe, Safe-mono, SameSending, SameSending-refl, SameSending-trans, Reported,
  report-Safe,
}

complete_next_lem :
    (s : Session) (c : CycleState)
    → complete_next s ≡ some c
    → (lookup s.next_emit s.cycles ≡ some c) × (c.sending ≡ false)
unfolding complete_next
complete_next_lem s c h = (ground arith, ground arith)

still_open :
    (m : Map ℕ CycleState) (lo n : ℕ) (c d : CycleState)
    → lookup lo m ≡ some c
    → c.sending ≡ false
    → lookup n m ≡ some d
    → d.sending ≡ true
    → lookup n (delete lo m) ≡ some d
still_open m lo n c d e idle h busy = rw (lookup-delete lo n m) (ground arith)

-- What `tryEmit` leaves behind; a cycle that is being sent stays open.
pub record Emitted (hi : ℕ) (s t : Session) : Type 0 where
  pub inv : InvAt hi t
  pub same : SameSending s t
  pub forward : s.next_emit ≤ t.next_emit
  pub keeps :
      (n : ℕ) (c : CycleState)
      → lookup n s.cycles ≡ some c
      → c.sending ≡ true
      → lookup n t.cycles ≡ some c

Emitted-refl : (hi : ℕ) (s : Session) → InvAt hi s → Emitted hi s s
Emitted-refl hi s v = record {
  inv = v;
  same = SameSending-refl s;
  forward = omega arith;
  keeps = λ n c h b. h;
}

Emitted-step :
    (hi : ℕ) (s t u : Session) (c : CycleState)
    → lookup s.next_emit s.cycles ≡ some c
    → c.sending ≡ false
    → Reported hi s t
    → Emitted hi t u
    → Emitted hi s u
Emitted-step hi s t u c e idle r k = record {
  inv = k.inv;
  same = SameSending-trans s t u r.same k.same;
  forward = omega (arith, r.next, k.forward);
  keeps = λ n d h b. k.keeps n d (still n d h b) b;
}
  where
    still :
        (n : ℕ) (d : CycleState)
        → lookup n s.cycles ≡ some d
        → d.sending ≡ true
        → lookup n t.cycles ≡ some d
    still n d h b = rw r.gone (still_open s.cycles s.next_emit n c d e idle h b)

module _ (names : Addr → String) (hi : ℕ) where
  try_emit_loop-Safe :
      (fuel : ℕ) (s : Session) → InvAt hi s → Safe (Emitted hi s) (try_emit_loop names fuel s)
  unfolding try_emit_loop
  try_emit_loop-Safe zero s v = Emitted-refl hi s v
  try_emit_loop-Safe (suc fuel) s v = elim (Option-cases (complete_next s)) [
    | inl e ↦ rw (e, Safe) (Emitted-refl hi s v)
    | inr (c, e) ↦
        let (found, idle) = complete_next_lem s c e in
        rw (e, Safe)
          (>>=-Safe (Reported hi s) (Emitted hi s) (report names c s) (try_emit_loop names fuel)
            (report-Safe names hi s c v found)
            λ t r.
              Safe-mono (Emitted hi t) (Emitted hi s) (try_emit_loop names fuel t)
                (try_emit_loop-Safe fuel t r.inv) (λ u k. Emitted-step hi s t u c found idle r k))
  ]

  -- Whatever is complete and next in order is reported.
  pub try_emit-Safe : (s : Session) → InvAt hi s → Safe (Emitted hi s) (try_emit names s)
  unfolding try_emit
  try_emit-Safe s v = try_emit_loop-Safe (length s.cycles) s v

length-delete : (k : ℕ) (m : Map ℕ CycleState) → length (delete k m) ≤ length m
unfolding delete
length-delete k [] = omega arith
length-delete k ((j, c) ∷ m) = elim (Bool-cases (j =? k)) [
  | inl t ↦ rw t (omega (arith, length-delete k m))
  | inr f ↦ rw f (omega (arith, length-delete k m))
]

length-delete_found :
    (k : ℕ) (m : Map ℕ CycleState) (c : CycleState)
    → lookup k m ≡ some c
    → length (delete k m) < length m
unfolding delete lookup
length-delete_found k [] c h = cc
length-delete_found k ((j, d) ∷ m) c h = elim (Bool-cases (j =? k)) [
  | inl t ↦ rw t (omega (arith, length-delete k m))
  | inr f ↦ rw f (omega (arith, length-delete_found k m c (rw f at h)))
]

module _ (names : Addr → String) (hi : ℕ) where
  try_emit_loop-all :
      (fuel : ℕ) (s : Session)
      → InvAt hi s
      → length s.cycles ≤ fuel
      → Safe (λ t. complete_next t ≡ none) (try_emit_loop names fuel s)
  unfolding try_emit_loop
  try_emit_loop-all zero s v l = elim (Option-cases (complete_next s)) [
    | inl e ↦ e
    | inr (c, e) ↦
        absurd
          (omega (arith, length-delete_found s.next_emit s.cycles c (complete_next_lem s c e).0))
  ]
  try_emit_loop-all (suc fuel) s v l = elim (Option-cases (complete_next s)) [
    | inl e ↦ rw (e, Safe) e
    | inr (c, e) ↦
        let (found, idle) = complete_next_lem s c e in
        rw (e, Safe)
          (>>=-Safe (Reported hi s) (λ t. complete_next t ≡ none) (report names c s)
            (try_emit_loop names fuel) (report-Safe names hi s c v found)
            λ t r.
              try_emit_loop-all fuel t r.inv
                (rw r.gone (omega (arith, length-delete_found s.next_emit s.cycles c found))))
  ]

-- In a session that satisfies the invariant, `tryEmit` does not panic, and reports until no complete
-- cycle is next in order.
pub try_emit-all :
    (names : Addr → String) (hi : ℕ) (s : Session)
    → InvAt hi s
    → Safe (λ t. complete_next t ≡ none) (try_emit names s)
unfolding try_emit
try_emit-all names hi s v = try_emit_loop-all names hi (length s.cycles) s v (omega arith)

-- What `forceEmit n` leaves behind: the cycle after `n` is next.
pub record Forced (hi n : ℕ) (s t : Session) : Type 0 where
  pub inv : InvAt hi t
  pub same : SameSending s t
  pub next : t.next_emit ≡ n + 1

Forced-step : (hi n : ℕ) (s t u : Session) → Reported hi s t → Forced hi n t u → Forced hi n s u
Forced-step hi n s t u r k = record {
  inv = k.inv;
  same = SameSending-trans s t u r.same k.same;
  next = k.next;
}

module _ (names : Addr → String) (hi n : ℕ) (upto : n ≤ hi) where
  force_emit_loop-Safe :
      (fuel : ℕ) (s : Session)
      → InvAt hi s
      → s.next_emit + fuel ≡ n + 1
      → Safe (Forced hi n s) (force_emit_loop names fuel n s)
  unfolding force_emit_loop
  force_emit_loop-Safe zero s v m = record {
    inv = v;
    same = SameSending-refl s;
    next = omega (arith, m);
  }
  force_emit_loop-Safe (suc fuel) s v m = elim (Option-cases (lookup s.next_emit s.cycles)) [
    | inl e ↦ absurd (v.ledger.present s.next_emit (omega arith) (omega (arith, m)) e)
    | inr (c, e) ↦
        rw (le→leb s.next_emit n (omega (arith, m)), e, Safe)
          (>>=-Safe (Reported hi s) (Forced hi n s) (report names c s)
            (force_emit_loop names fuel n) (report-Safe names hi s c v e)
            λ t r.
              Safe-mono (Forced hi n t) (Forced hi n s) (force_emit_loop names fuel n t)
                (force_emit_loop-Safe fuel t r.inv (omega (arith, m, r.next)))
                (λ u k. Forced-step hi n s t u r k))
  ]

  -- Every open cycle up to `n` is reported, in order.
  pub force_emit-Safe :
      (s : Session) → InvAt hi s → s.next_emit ≤ n + 1 → Safe (Forced hi n s) (force_emit names n s)
  unfolding force_emit
  force_emit-Safe s v h = force_emit_loop-Safe (n + 1 - s.next_emit) s v (omega arith)
