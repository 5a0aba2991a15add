-- ===== src/Trace/Session/Phases.antt =====
-- The two phases of the sending side of internal/trace/session.go: between cycles, and in one.
use prober.Prelude.{
  range_from, length-range_from, ℕ, zero, suc, ◌+◌, ◌-◌, ◌≡◌, ◌≤◌, ◌<◌, refl, sym, ap, ◌⊎◌, inl,
  inr, true, false, some, List, arith, Bool-cases, ◌==◌, ==_iff, length, All, get_elem?,
}
use prober.Prelude.Int.{ℤ, pos, negsuc, pos_part, ◌≤ℤ◌}
use prober.Prelude.Maps.{lookup, nat_eq}
use prober.Trace.Spec.{ping}
use prober.Trace.Spec.Bounds.{IsEffective}
use prober.Trace.Session.State.{Session, CycleState, first_ttl, max_ttl, cycle_count}
use prober.Trace.Session.Sending.{up_to, ttls_for_cycle}
use prober.Trace.Session.Invariant.{InvAt, Inv}

-- A cycle is being sent: `send_idx` is a position in its TTLs, which start at the first TTL.
pub record InCycle (s : Session) : Type 0 where
  pub inv : Inv s
  pub in_range : s.send_idx < length s.cycle_ttls
  pub from_first : get_elem? s.cycle_ttls 0 ≡ some (first_ttl s)
  pub few : length s.cycle_ttls ≤ max_ttl s
  pub current : (c : CycleState) × (lookup s.cycle s.cycles ≡ some c) × (c.sending ≡ true)
  pub not_done : s.sending_done ≡ false
  pub upto_count : s.cycle ≤ cycle_count s

-- No cycle is being sent: the next is still due, or the last has been sent.
pub record Between (s : Session) : Type 0 where
  pub inv : Inv s
  pub at_start : s.send_idx ≡ 0
  pub left_or_done :
      ((s.sending_done ≡ false) × (s.cycle < cycle_count s))
      ⊎ ((s.sending_done ≡ true) × (s.cycle ≡ cycle_count s))

pub data Phase (s : Session) : Type 0 where
  between : Between s → Phase s
  in_cycle : 0 < s.send_idx → InCycle s → Phase s

pub Phase-Inv : (s : Session) → Phase s → Inv s
Phase-Inv s (between b) = b.inv
Phase-Inv s (in_cycle h c) = c.inv

-- An effective spec in numbers.
pub record Bounded (s : Session) : Type 0 where
  pub first_pos : 1 ≤ first_ttl s
  pub first_le_max : first_ttl s ≤ max_ttl s
  pub count_pos : 1 ≤ cycle_count s

pos_part_mono : (a b : ℤ) → pos 1 ≤ℤ a → a ≤ℤ b → pos_part a ≤ pos_part b
pos_part_mono (pos m) b h k = omega arith
pos_part_mono (negsuc m) b h k = absurd (omega arith)

pub effective-Bounded : (s : Session) → IsEffective s.spec → Bounded s
effective-Bounded s v = record {
  first_pos = omega (arith, v.first_ttl_pos);
  first_le_max = pos_part_mono s.spec.first_ttl s.spec.max_ttl v.first_ttl_pos v.ttl_order;
  count_pos = omega (arith, v.cycles_pos);
}

range_from-above : (a n k : ℕ) → a ≤ k → All (λ (t : ℕ). a ≤ t) (range_from k n)
range_from-above a zero k h = tt
range_from-above a (suc n) k h = (h, range_from-above a n (suc k) (omega arith))

range_from-first : (a n : ℕ) → 0 < n → get_elem? (range_from a n) 0 ≡ some a
range_from-first a zero h = elim h [ ]
range_from-first a (suc n) h = refl

-- The TTLs of the next cycle.
pub record GoodTtls (s : Session) (ts : List ℕ) : Type 0 where
  pub first_of : get_elem? ts 0 ≡ some (first_ttl s)
  pub above : All (λ (t : ℕ). first_ttl s ≤ t) ts
  pub at_most : length ts ≤ max_ttl s
  pub at_least : 0 < length ts

up_to_bounds :
    (s : Session)
    → (s.reached_at ≡ 0) ⊎ (first_ttl s ≤ s.reached_at)
    → first_ttl s ≤ max_ttl s
    → (first_ttl s ≤ up_to s) × (up_to s ≤ max_ttl s)
up_to_bounds s h k = ground arith

pub ttls_for_cycle-GoodTtls : (s : Session) (hi : ℕ) → InvAt hi s → GoodTtls s (ttls_for_cycle s)
unfolding ttls_for_cycle
ttls_for_cycle-GoodTtls s hi v =
    let b = effective-Bounded s v.effective in
    let u = up_to_bounds s v.reached b.first_le_max in
    elim (Bool-cases (s.spec.mode == ping)) [
      | inl is_ping ↦ rw is_ping (record {
        first_of = ap some (one_ttl is_ping);
        above = (b.first_le_max, tt);
        at_most = omega arith;
        at_least = omega arith;
      })
      | inr is_mtr ↦ rw is_mtr (record {
        first_of = range_from-first (first_ttl s) _ (omega (arith, u));
        above = range_from-above (first_ttl s) _ (first_ttl s) (omega arith);
        at_most =
            rw (length-range_from (first_ttl s) (up_to s + 1 - first_ttl s))
              (omega (arith, u, b.first_pos));
        at_least =
            rw (length-range_from (first_ttl s) (up_to s + 1 - first_ttl s)) omega (arith, u);
      })
    ]
  where
    one_ttl : (s.spec.mode == ping) ≡ true → max_ttl s ≡ first_ttl s
    one_ttl h = ap pos_part (sym (v.effective.ping_one_ttl ((==_iff s.spec.mode ping).0 h)))
