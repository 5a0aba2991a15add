-- ===== src/Trace/Session/Kept.antt =====
-- What the receiving side of internal/trace/session.go (`handleReply`, `expire`) and `tryEmit` keep:
-- the invariant, the sending side, and the cycle that is being sent.
use prober.Prelude.{
  ℕ, ◌≡◌, ◌≢◌, ◌≤◌, refl, sym, ◌∙◌, ◌⊎◌, inl, inr, Bool, true, false, Option, none, some, List, [],
  ◌∷◌, arith, Bool-cases, Option-cases, ◌==◌, if◌then◌else◌, ltb, All-set, All-get_elem?, get_elem?,
}
use prober.Prelude.Maps.{Map, lookup, nat_eq, lookup-insert}
use prober.Trace.Probe.{Reply, key_eq}
use prober.Trace.Session.State.{Session, Probe, CycleState, update_found, first_ttl}
use prober.Trace.Session.Receiving.{
  is_from_target, load, answer, lose, accept, handle_found, handle_reply, handle_replies, give_up,
  expire_loop, expire,
}
use prober.Trace.Session.Ledger.{IsLedger, insert-IsLedger}
use prober.Trace.Session.Invariant.{InvAt}
use prober.Trace.Session.Emits.{Emitted}

-- A change of a cycle's books: neither its number, nor its TTLs, nor whether it is being sent.
pub record IsBookkeeping (f : CycleState → CycleState) : Type 0 where
  pub number_kept : (c : CycleState) → (f c).number ≡ c.number
  pub ttls_kept : (c : CycleState) → (f c).ttls ≡ c.ttls
  pub sending_kept : (c : CycleState) → (f c).sending ≡ c.sending

pub record Kept (hi : ℕ) (s t : Session) : Type 0 where
  pub inv : InvAt hi t
  pub kept_spec : t.spec ≡ s.spec
  pub kept_cycle : t.cycle ≡ s.cycle
  pub kept_idx : t.send_idx ≡ s.send_idx
  pub kept_ttls : t.cycle_ttls ≡ s.cycle_ttls
  pub kept_done : t.sending_done ≡ s.sending_done
  pub still_sending :
      (n : ℕ) (c : CycleState)
      → lookup n s.cycles ≡ some c
      → c.sending ≡ true
      → (d : CycleState) × (lookup n t.cycles ≡ some d) × (d.sending ≡ true)

pub Kept-refl : (hi : ℕ) (s : Session) → InvAt hi s → Kept hi s s
Kept-refl hi s v = record {
  inv = v;
  kept_spec = refl;
  kept_cycle = refl;
  kept_idx = refl;
  kept_ttls = refl;
  kept_done = refl;
  still_sending = λ n c h b. (c, h, b);
}

pub Kept-trans : (hi : ℕ) (s t u : Session) → Kept hi s t → Kept hi t u → Kept hi s u
Kept-trans hi s t u a b = record {
  inv = b.inv;
  kept_spec = b.kept_spec ∙ a.kept_spec;
  kept_cycle = b.kept_cycle ∙ a.kept_cycle;
  kept_idx = b.kept_idx ∙ a.kept_idx;
  kept_ttls = b.kept_ttls ∙ a.kept_ttls;
  kept_done = b.kept_done ∙ a.kept_done;
  still_sending = λ n c h k. let (d, p, q) = a.still_sending n c h k in b.still_sending n d p q;
}

pub Emitted-Kept : (hi : ℕ) (s t : Session) → Emitted hi s t → Kept hi s t
Emitted-Kept hi s t e = record {
  inv = e.inv;
  kept_spec = e.same.same_spec;
  kept_cycle = e.same.same_cycle;
  kept_idx = e.same.same_idx;
  kept_ttls = e.same.same_ttls;
  kept_done = e.same.same_done;
  still_sending = λ n c h b. (c, e.keeps n c h b, b);
}

-- A change that leaves a cycle its number and some TTLs.
pub record KeepsEntry (f : CycleState → CycleState) : Type 0 where
  pub number_kept : (c : CycleState) → (f c).number ≡ c.number
  pub some_ttls : (c : CycleState) → c.ttls ≢ [] → (f c).ttls ≢ []

pub update_found-entries :
    (f : CycleState → CycleState) (b : KeepsEntry f) (n : ℕ) (m : Map ℕ CycleState) (lo hi : ℕ)
    → IsLedger lo hi m
    → IsLedger lo hi (update_found n f (lookup n m) m)
update_found-entries f b n m lo hi v = elim (Option-cases (lookup n m)) [
  | inl e ↦ rw (e, update_found) v
  | inr (c, e) ↦
      rw (e, update_found)
        (insert-IsLedger lo hi m v n c (f c) e (b.number_kept c)
          (b.some_ttls c (v.entries n c e).some_ttls))
]

module _ (f : CycleState → CycleState) (b : IsBookkeeping f) (n : ℕ) (m : Map ℕ CycleState) where
  pub update_found-IsLedger :
      (lo hi : ℕ) → IsLedger lo hi m → IsLedger lo hi (update_found n f (lookup n m) m)
  update_found-IsLedger lo hi =
      update_found-entries f
        (record { number_kept = b.number_kept; some_ttls = λ c h e. h (sym (b.ttls_kept c) ∙ e) }) n
        m lo hi

  pub update_found-sending :
      (k : ℕ) (c : CycleState)
      → lookup k m ≡ some c
      → c.sending ≡ true
      → (d : CycleState) × (lookup k (update_found n f (lookup n m) m) ≡ some d)
        × (d.sending ≡ true)
  update_found-sending k c e s = elim (Option-cases (lookup n m)) [
    | inl h ↦ rw (h, update_found) (c, e, s)
    | inr (x, h) ↦ elim (Bool-cases (n == k)) [
      | inl same ↦ (
        f x,
        rw (h, update_found, lookup-insert n k (f x) m, same),
        b.sending_kept x ∙ (let q : x.sending ≡ true = ground arith in q),
      )
      | inr other ↦ (c, rw (h, update_found, lookup-insert n k (f x) m, other) e, s)
    ]
  ]

answer-IsBookkeeping : (p : Probe) (rtt : ℕ) (t : Bool) → IsBookkeeping (answer p rtt t)
unfolding answer
answer-IsBookkeeping p rtt t = record {
  number_kept = λ c. refl;
  ttls_kept = λ c. refl;
  sending_kept = λ c. refl;
}

lose-IsBookkeeping : (p : Probe) → IsBookkeeping (lose p)
unfolding lose
lose-IsBookkeeping p = record {
  number_kept = λ c. refl;
  ttls_kept = λ c. refl;
  sending_kept = λ c. refl;
}

reached_by :
    (first ttl old : ℕ) (b : Bool)
    → first ≤ ttl
    → (old ≡ 0) ⊎ (first ≤ old)
    → ((if b then ttl else old) ≡ 0) ⊎ (first ≤ (if b then ttl else old))
reached_by first ttl old true h k = inr h
reached_by first ttl old false h k = k

module _ (hi : ℕ) where
  accept-Kept :
      (r : Reply) (ptr : ℕ) (p : Probe) (s : Session)
      → get_elem? s.heap ptr ≡ some p
      → InvAt hi s
      → Kept hi s (accept r ptr p s)
  unfolding accept
  accept-Kept r ptr p s e v = record {
    inv = record {
      effective = v.effective;
      ledger =
          update_found-IsLedger _ (answer-IsBookkeeping p _ _) p.cycle s.cycles s.next_emit hi
            v.ledger;
      emit_pos = v.emit_pos;
      emit_le = v.emit_le;
      log = v.log;
      reached = reached_by (first_ttl s) p.ttl s.reached_at (is_from_target r.kind) above v.reached;
      probes_above = All-set _ s.heap ptr _ v.probes_above above;
      ttls_above = v.ttls_above;
    };
    kept_spec = refl;
    kept_cycle = refl;
    kept_idx = refl;
    kept_ttls = refl;
    kept_done = refl;
    still_sending = update_found-sending _ (answer-IsBookkeeping p _ _) p.cycle s.cycles;
  }
    where
      above : first_ttl s ≤ p.ttl
      above = All-get_elem? (λ (q : Probe). first_ttl s ≤ q.ttl) s.heap ptr v.probes_above e

  give_up-Kept :
      (ptr : ℕ) (p : Probe) (s : Session)
      → get_elem? s.heap ptr ≡ some p
      → InvAt hi s
      → Kept hi s (give_up ptr p s)
  unfolding give_up
  give_up-Kept ptr p s e v = record {
    inv = record {
      effective = v.effective;
      ledger =
          update_found-IsLedger _ (lose-IsBookkeeping p) p.cycle s.cycles s.next_emit hi v.ledger;
      emit_pos = v.emit_pos;
      emit_le = v.emit_le;
      log = v.log;
      reached = v.reached;
      probes_above = All-set _ s.heap ptr _ v.probes_above above;
      ttls_above = v.ttls_above;
    };
    kept_spec = refl;
    kept_cycle = refl;
    kept_idx = refl;
    kept_ttls = refl;
    kept_done = refl;
    still_sending = update_found-sending _ (lose-IsBookkeeping p) p.cycle s.cycles;
  }
    where
      above : first_ttl s ≤ p.ttl
      above = All-get_elem? (λ (q : Probe). first_ttl s ≤ q.ttl) s.heap ptr v.probes_above e

  requeue-Kept : (q : List ℕ) (s : Session) → InvAt hi s → Kept hi s (record s { queue = q })
  requeue-Kept q s v = record {
    inv = record {
      effective = v.effective;
      ledger = v.ledger;
      emit_pos = v.emit_pos;
      emit_le = v.emit_le;
      log = v.log;
      reached = v.reached;
      probes_above = v.probes_above;
      ttls_above = v.ttls_above;
    };
    kept_spec = refl;
    kept_cycle = refl;
    kept_idx = refl;
    kept_ttls = refl;
    kept_done = refl;
    still_sending = λ n c h b. (c, h, b);
  }

  load_lem :
      (heap : List Probe) (o : Option ℕ) (ptr : ℕ) (p : Probe)
      → load heap o ≡ some (ptr, p)
      → get_elem? heap ptr ≡ some p
  unfolding load
  load_lem heap none ptr p e = cc
  load_lem heap (some i) ptr p e = ground arith

  handle_reply-Kept : (r : Reply) (s : Session) → InvAt hi s → Kept hi s (handle_reply r s)
  unfolding handle_reply
  handle_reply-Kept r s v = elim (Option-cases (load s.heap (lookup r.key s.probes))) [
    | inl e ↦ rw (e, handle_found) (Kept-refl hi s v)
    | inr ((ptr, p), e) ↦ elim (Bool-cases p.settled) [
      | inl late ↦ rw (e, handle_found, late) (Kept-refl hi s v)
      | inr open_ ↦
          rw (e, handle_found, open_)
            (accept-Kept r ptr p s (load_lem s.heap (lookup r.key s.probes) ptr p e) v)
    ]
  ]

  pub handle_replies-Kept :
      (rs : List Reply) (s : Session) → InvAt hi s → Kept hi s (handle_replies rs s)
  unfolding handle_replies
  handle_replies-Kept [] s v = Kept-refl hi s v
  handle_replies-Kept (r ∷ rs) s v =
      let k = handle_reply-Kept r s v in
      Kept-trans hi s (handle_reply r s) _ k (handle_replies-Kept rs (handle_reply r s) k.inv)

  expire_loop-Kept :
      (now : ℕ) (q : List ℕ) (s : Session) → InvAt hi s → Kept hi s (expire_loop now q s)
  unfolding expire_loop
  expire_loop-Kept now [] s v = requeue-Kept [] s v
  expire_loop-Kept now (ptr ∷ rest) s v = elim (Option-cases (get_elem? s.heap ptr)) [
    | inl e ↦ rw (e, expire_loop) (expire_loop-Kept now rest s v)
    | inr (p, e) ↦ elim (Bool-cases p.settled) [
      | inl done ↦ rw (e, expire_loop, done) (expire_loop-Kept now rest s v)
      | inr open_ ↦ elim (Bool-cases (ltb now p.deadline)) [
        | inl early ↦ rw (e, expire_loop, open_, early) (requeue-Kept (ptr ∷ rest) s v)
        | inr due ↦
            let k = give_up-Kept ptr p s e v in
            rw (e, expire_loop, open_, due)
              (Kept-trans hi s (give_up ptr p s) _ k
                (expire_loop-Kept now rest (give_up ptr p s) k.inv))
      ]
    ]
  ]

  pub expire-Kept : (now : ℕ) (s : Session) → InvAt hi s → Kept hi s (expire now s)
  unfolding expire
  expire-Kept now s v = expire_loop-Kept now s.queue s v
