-- ===== src/Trace/Session/Ledger.antt =====
-- The open cycles of internal/trace/session.go, `s.cycles`: exactly the numbers from the next one to
-- report up to the one being sent, each with its own number and some TTLs.
use prober.Prelude.{ℕ, ◌+◌, ◌≡◌, ◌≢◌, ◌≤◌, sym, ◌∙◌, [], none, some, arith, ◌==◌, if◌then◌else◌}
use prober.Prelude.Maps.{Map, lookup, insert, delete, lookup-insert, lookup-delete, nat_eq}
use prober.Trace.Session.State.{CycleState}

pub record IsEntry (lo hi n : ℕ) (c : CycleState) : Type 0 where
  pub own_number : c.number ≡ n
  pub some_ttls : c.ttls ≢ []
  pub from_lo : lo ≤ n
  pub upto_hi : n ≤ hi

pub record IsLedger (lo hi : ℕ) (m : Map ℕ CycleState) : Type 0 where
  pub entries : (n : ℕ) (c : CycleState) → lookup n m ≡ some c → IsEntry lo hi n c
  pub present : (n : ℕ) → lo ≤ n → n ≤ hi → lookup n m ≢ none

module _ (lo hi : ℕ) (m : Map ℕ CycleState) (v : IsLedger lo hi m) where
  -- A write through the pointer to an open cycle.
  pub insert-IsLedger :
      (n : ℕ) (c d : CycleState)
      → lookup n m ≡ some c
      → d.number ≡ c.number
      → d.ttls ≢ []
      → IsLedger lo hi (insert n d m)
  insert-IsLedger n c d e num ttls = record {
    entries = λ k x h. entry k x (sym (lookup-insert n k d m) ∙ h);
    present = λ k a b. rw (lookup-insert n k d m) (still k a b);
  }
    where
      entry :
          (k : ℕ) (x : CycleState)
          → (if n == k then some d else lookup k m) ≡ some x
          → IsEntry lo hi k x
      entry k x h = ground (arith, v.entries n c e, v.entries k x)

      still : (k : ℕ) → lo ≤ k → k ≤ hi → (if n == k then some d else lookup k m) ≢ none
      still k a b = ground (arith, v.present k a b)

  -- The first open cycle is reported.
  pub delete-IsLedger : IsLedger (lo + 1) hi (delete lo m)
  delete-IsLedger = record {
    entries = λ k x h. entry k x (sym (lookup-delete lo k m) ∙ h);
    present = λ k a b. rw (lookup-delete lo k m) (still k a b);
  }
    where
      entry :
          (k : ℕ) (x : CycleState)
          → (if lo == k then none else lookup k m) ≡ some x
          → IsEntry (lo + 1) hi k x
      entry k x h = ground (arith, v.entries k x)

      still : (k : ℕ) → lo + 1 ≤ k → k ≤ hi → (if lo == k then none else lookup k m) ≢ none
      still k a b = ground (arith, v.present k (omega arith) b)

  -- With every cycle reported, the next one is opened.
  pub open-IsLedger :
      (c : CycleState)
      → lo ≡ hi + 1
      → c.number ≡ hi + 1
      → c.ttls ≢ []
      → IsLedger (hi + 1) (hi + 1) (insert (hi + 1) c m)
  open-IsLedger c done num ttls = record {
    entries = λ k x h. entry k x (sym (lookup-insert (hi + 1) k c m) ∙ h);
    present = λ k a b. rw (lookup-insert (hi + 1) k c m) (still k a b);
  }
    where
      entry :
          (k : ℕ) (x : CycleState)
          → (if hi + 1 == k then some c else lookup k m) ≡ some x
          → IsEntry (hi + 1) (hi + 1) k x
      entry k x h = ground (arith, v.entries k x)

      still :
          (k : ℕ) → hi + 1 ≤ k → k ≤ hi + 1 → (if hi + 1 == k then some c else lookup k m) ≢ none
      still k a b = ground arith

  -- What `nextEmit` leads to.
  pub first-IsEntry :
      (c : CycleState) → lookup lo m ≡ some c → (c.number ≡ lo) × (c.ttls ≢ []) × (lo ≤ hi)
  first-IsEntry c e = let r = v.entries lo c e in (r.own_number, r.some_ttls, r.upto_hi)

pub empty-IsLedger : IsLedger 1 0 []
unfolding lookup
empty-IsLedger = record { entries = λ n c h. cc; present = λ n a b. absurd (omega arith) }
