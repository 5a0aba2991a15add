-- ===== src/Trace/Session/Sending.antt =====
-- internal/trace/session.go: sending the probes that are due (`sendDue`, `send`, `endCycle`,
-- `ttlsForCycle`), with the identity that internal/trace/probe_icmp.go, probe_udp.go and
-- probe_tcp.go give a probe. What the network makes of a send is an outcome: the probe left, from a
-- local port at an instant; or it was refused, before or after it had been registered (under its
-- port, for UDP and TCP), by an error that means `unreachable` or another.
use prober.Prelude.{
  ℕ, range_from, zero, suc, ◌+◌, ◌-◌, ◌*◌, ◌/◌, ◌%◌, Bool, true, false, ◌&&◌, not, List, [], ◌∷◌,
  ◌++◌, Option, none, some, String, get_elem?, take, length, ◌==◌, ltb, leb, if◌then◌else◌,
}
use prober.Prelude.Int.{pos, ◌+ℤ◌}
use prober.Prelude.Maps.{Map, lookup, insert, delete, nat_eq}
use prober.Netip.{Addr, is6}
use prober.Trace.Probe.{ProbeKey, key_eq}
use prober.Trace.Spec.{icmp, ping}
use prober.Trace.Stats.{send_probe, lost}
use prober.Trace.Session.State.{
  Session, Probe, CycleState, Run, ok, fatal, panic, ◌>>=◌, update_hop, update_cycle, need_cycle,
  first_ttl, max_ttl, cycle_count, interval, probe_timeout,
}
use prober.Trace.Session.Report.{force_emit}

pub data Outcome : Type 0 where
  left : ℕ → ℕ → Outcome
  refused : Option ℕ → Bool → Outcome

-- The last TTL that the next cycle probes.
abbrev pub up_to : Session → ℕ
up_to s = if ltb 0 s.reached_at && ltb s.reached_at (max_ttl s) then s.reached_at else max_ttl s

unfoldable pub ttls_for_cycle : Session → List ℕ
ttls_for_cycle s =
    if s.spec.mode == ping
    then max_ttl s ∷ []
    else range_from (first_ttl s) (up_to s + 1 - first_ttl s)

abbrev pub set_sending : Bool → CycleState → CycleState
set_sending b c = record c { sending = b }

-- Closes the sending side of the current cycle and puts the next on the interval grid.
unfoldable pub end_cycle : Session → Run Session
unfolding update_cycle
end_cycle s =
    need_cycle s.cycle
      (λ c.
        let t = record (update_cycle s.cycle (set_sending false) s) { send_idx = 0 } in
        ok (record t {
          sending_done = if leb (cycle_count s) s.cycle then true else s.sending_done;
          cycle_start =
              if leb (cycle_count s) s.cycle then s.cycle_start else s.cycle_start + interval s;
          next_send_at =
              if leb (cycle_count s) s.cycle then s.next_send_at else s.cycle_start + interval s;
        }))
      (lookup s.cycle s.cycles)

-- An ICMP probe carries the run's identifier and the sequence number, a uint16 that has just been
-- increased; the others their local port.
abbrev pub key_for : Session → ℕ → ProbeKey
key_for s port =
    if s.spec.protocol == icmp
    then record { proto = icmp; is_v6 = is6 s.spec.target; id = s.icmp_id; seq = s.seq }
    else record { proto = s.spec.protocol; is_v6 = is6 s.spec.target; id = port; seq = 0 }

unfoldable pub next_seq : Session → Session
next_seq s = record s {
  seq = if s.spec.protocol == icmp then (s.seq + 1) % 65536 else s.seq;
  attempts = s.attempts + 1;
}

-- Registering a probe, and taking it back when the write fails, leaves its key out of the table.
abbrev pub without_key : Session → Option ℕ → Map ProbeKey (Unit {0})
without_key s none =
    if s.spec.protocol == icmp then delete (key_for s 0) s.registered else s.registered
without_key s (some port) = delete (key_for s port) s.registered

abbrev pub unregister : Session → Option ℕ → Session
unregister s stage = record s { registered = without_key s stage }

abbrev pub lose_sample : ℕ → CycleState → CycleState
lose_sample ttl c = record c { samples = insert ttl none c.samples }

abbrev pub one_more_out : CycleState → CycleState
one_more_out c = record c { outstanding = c.outstanding +ℤ pos 1 }

-- The probe joins the heap, the registry and the queue.
unfoldable pub enlist : ℕ → ℕ → ℕ → Session → Session
enlist ttl port sent_at s =
    let p : Probe = record {
      key = key_for s port;
      ttl = ttl;
      cycle = s.cycle;
      sent_at = sent_at;
      deadline = sent_at + probe_timeout s;
      settled = false;
    } in
    let ptr = length s.heap in
    record s {
      heap = s.heap ++ p ∷ [];
      probes = insert p.key ptr s.probes;
      registered = insert p.key tt s.registered;
      queue = s.queue ++ ptr ∷ [];
    }

unfoldable pub send : Outcome → ℕ → Session → Run Session
unfolding next_seq enlist update_hop update_cycle
send (left port sent_at) ttl s =
    let t = update_hop ttl send_probe (next_seq s) in
    need_cycle s.cycle (λ c. ok (update_cycle s.cycle one_more_out (enlist ttl port sent_at t)))
      (lookup s.cycle s.cycles)
send (refused stage unreachable) ttl s =
    let t = update_hop ttl send_probe (unregister (next_seq s) stage) in
    if unreachable
    then need_cycle s.cycle
        (λ c. ok (update_cycle s.cycle (lose_sample ttl) (update_hop ttl lost t)))
        (lookup s.cycle s.cycles)
    else fatal t

abbrev pub open_cycle : ℕ → List ℕ → CycleState
open_cycle n ttls = record {
  number = n;
  ttls = ttls;
  sending = true;
  outstanding = pos 0;
  samples = [];
  target_seen = false;
}

-- The beginning of a cycle, `if s.sendIdx == 0 { … }`.
unfoldable pub begin_cycle : (Addr → String) → Session → Run Session
unfolding ttls_for_cycle
begin_cycle names s = force_emit names s.cycle (record s { cycle = s.cycle + 1 }) >>= λ t.
    let ttls = ttls_for_cycle t in
    ok (record t { cycle_ttls = ttls; cycles = insert t.cycle (open_cycle t.cycle ttls) t.cycles })

abbrev pub cut_short : List ℕ → CycleState → CycleState
cut_short ttls c = record c { ttls = ttls }

-- What follows a probe that was sent: the next one's time, or the end of the cycle.
unfoldable pub after_send : Session → Run Session
unfolding end_cycle
after_send s =
    let t = record s { send_idx = s.send_idx + 1 } in
    if ltb t.send_idx (length t.cycle_ttls)
    then ok
        (record t { next_send_at = t.cycle_start + interval t * t.send_idx / length t.cycle_ttls })
    else end_cycle t

unfoldable pub send_at : Outcome → Session → ℕ → Run Session
unfolding send after_send end_cycle update_cycle
send_at outcome s ttl =
    if ltb 0 s.reached_at && ltb s.reached_at ttl
    then need_cycle s.cycle
        (λ c. end_cycle (update_cycle s.cycle (cut_short (take s.send_idx s.cycle_ttls)) s))
        (lookup s.cycle s.cycles)
    else send outcome ttl s >>= after_send

-- The TTL that `send_idx` leads to.
unfoldable pub send_next : (ℕ → Outcome) → Session → Run Session
unfolding send_at
send_next wire s = elim (get_elem? s.cycle_ttls s.send_idx) [
  | none ↦ panic
  | some ttl ↦ send_at (wire s.attempts) s ttl
]

-- One round of `sendDue`'s loop.
unfoldable pub send_round : (Addr → String) → (ℕ → Outcome) → Session → Run Session
unfolding begin_cycle send_next
send_round names wire s = (if s.send_idx == 0 then begin_cycle names s else ok s) >>= send_next wire

abbrev pub is_due : ℕ → Session → Bool
is_due now s = not s.sending_done && leb s.next_send_at now

-- `sendDue`, and whether the rounds sufficed.
unfoldable pub send_due : (Addr → String) → (ℕ → Outcome) → ℕ → ℕ → Session → Run Session
send_due names wire now zero s = ok s
send_due names wire now (suc rounds) s = elim (is_due now s) [
  | true ↦ send_round names wire s >>= send_due names wire now rounds
  | false ↦ ok s
]
