-- ===== src/Trace/Session/Receiving.antt =====
-- internal/trace/session.go: what ends a probe, an answer (`handleReply`) or its deadline
-- (`expire`), and what ends them all (`cleanup`).
use prober.Prelude.{
  ℕ, ◌-◌, Bool, true, false, not, ◌&&◌, List, [], ◌∷◌, Option, none, some, get_elem?, ltb,
  if◌then◌else◌,
}
use prober.Prelude.Int.{pos, ◌-ℤ◌}
use prober.Prelude.Maps.{Map, lookup, insert, nat_eq}
use prober.Trace.Probe.{ProbeKey, key_eq, Reply, ReplyKind, from_target, exceeded, unreachable}
use prober.Trace.Stats.{lost, reply}
use prober.Trace.Session.State.{Session, Probe, CycleState, settle, update_hop, update_cycle}

abbrev pub is_from_target : ReplyKind → Bool
is_from_target from_target = true
is_from_target exceeded = false
is_from_target unreachable = false

-- The probe that a registered key leads to, with its pointer.
unfoldable pub load : List Probe → Option ℕ → Option (ℕ × Probe)
load heap none = none
load heap (some ptr) = elim (get_elem? heap ptr) [ none ↦ none | some p ↦ some (ptr, p) ]

-- An answer in the books of its cycle.
unfoldable pub answer : Probe → ℕ → Bool → CycleState → CycleState
answer p rtt is_target c = record c {
  samples = insert p.ttl (some rtt) c.samples;
  outstanding = c.outstanding -ℤ pos 1;
  target_seen = if is_target then true else c.target_seen;
}

-- A loss in the books of its cycle.
unfoldable pub lose : Probe → CycleState → CycleState
lose p c = record c { samples = insert p.ttl none c.samples; outstanding = c.outstanding -ℤ pos 1 }

-- `-` on the instants stops at 0, as the source's test of a negative RTT does.
unfoldable pub accept : Reply → ℕ → Probe → Session → Session
unfolding settle update_hop update_cycle answer reply
accept r ptr p s =
    let rtt = r.at - p.sent_at in
    let is_target = is_from_target r.kind in
    let t =
      update_cycle p.cycle (answer p rtt is_target)
        (update_hop p.ttl (reply r.from rtt) (settle ptr p s)) in
    record t {
      reached_at = if is_target then p.ttl else t.reached_at;
      missed_target = if is_target then 0 else t.missed_target;
    }

abbrev pub handle_found : Reply → Session → Option (ℕ × Probe) → Session
handle_found r s none = s
handle_found r s (some (ptr, p)) = if p.settled then s else accept r ptr p s

unfoldable pub handle_reply : Reply → Session → Session
unfolding accept load
handle_reply r s = handle_found r s (load s.heap (lookup r.key s.probes))

unfoldable pub handle_replies : List Reply → Session → Session
unfolding handle_reply
handle_replies [] s = s
handle_replies (r ∷ rs) s = handle_replies rs (handle_reply r s)

-- A probe past its deadline.
unfoldable pub give_up : ℕ → Probe → Session → Session
unfolding settle update_hop update_cycle lose lost
give_up ptr p s = update_cycle p.cycle (lose p) (update_hop p.ttl lost (settle ptr p s))

-- The loop over the queue, whose entries from the head on are `queue`.
unfoldable pub expire_loop : ℕ → List ℕ → Session → Session
unfolding give_up
expire_loop now [] s = record s { queue = [] }
expire_loop now (ptr ∷ rest) s = elim (get_elem? s.heap ptr) [
  | none ↦ expire_loop now rest s
  | some p ↦
      if not p.settled && ltb now p.deadline
      then record s { queue = ptr ∷ rest }
      else expire_loop now rest (if p.settled then s else give_up ptr p s)
]

unfoldable pub expire : ℕ → Session → Session
unfolding expire_loop
expire now s = expire_loop now s.queue s

-- The loop over the registered probes.
unfoldable pub settle_all : Map ProbeKey ℕ → Session → Session
unfolding settle
settle_all [] s = s
settle_all ((k, ptr) ∷ rest) s =
    settle_all rest (elim (get_elem? s.heap ptr) [ none ↦ s | some p ↦ settle ptr p s ])

unfoldable pub cleanup : Session → Session
unfolding settle_all
cleanup s = record (settle_all s.probes s) { queue = [] }
