-- ===== src/Trace/Tests.antt =====
-- Runs of internal/trace on small inputs: a trace of two cycles to a target two hops away.
use prober.Prelude.{ℕ, ◌≡◌, refl, ◌*◌, true, false, String, none, List, [], ◌∷◌}
use prober.Prelude.Int.{pos, negsuc}
use prober.Prelude.Maps.{nat_eq}
use prober.Netip.{Addr, zero_addr, v4, is_valid, unmap}
use prober.Trace.Spec.{
  Spec, ok as accepted, udp, mtr, second, normalize, check_source, check_protocol, check_mode,
  default_port, default_pace, check_ttls, check_packet,
}
use prober.Trace.Spec.Bounds.{IsEffective, normalize-IsEffective, normalize-normalize}
use prober.Trace.Probe.{Reply, exceeded}
use prober.Trace.Stats.Replies.{
  ProbeEvent, sends, loses, replies, replay, IsSummary, replay-IsSummary, tally, tally-replay,
  replies_from,
}
use prober.Trace.Session.Report.{try_emit, complete_next}
use prober.Trace.Session.Sending.{Outcome, left, send_due}
use prober.Trace.Session.Loop.{Turn, timer, arrive, cancel, rounds, run, begin_run}
use prober.Trace.Session.Invariant.{Safe}
use prober.Trace.Session.Phases.{Phase, Phase-Inv}
use prober.Trace.Session.Events.{begin_run-Phase}
use prober.Trace.Session.Emits.{try_emit-all}
use prober.Trace.Session.Runs.{Caught, send_due-rounds}
use prober.Trace.Session.Endings.{Ends, run-Ends}

-- 192.0.2.1, with everything else left to its default but the cycles and the last TTL.
abbrev raw : Spec
raw = record {
  target = v4 3221225985;
  protocol = udp;
  mode = 0;
  port = 0;
  resolve_names = true;
  cycles = pos 2;
  interval = pos 0;
  first_ttl = negsuc 0;
  max_ttl = pos 2;
  packet_size = pos 0;
  dscp = pos 0;
  source = zero_addr;
  probe_timeout = pos 0;
}

abbrev two_cycles : Spec
two_cycles = record raw {
  mode = mtr;
  port = 33434;
  interval = pos second;
  first_ttl = pos 1;
  packet_size = pos 56;
  probe_timeout = pos (3 * second);
}

normalize-raw : normalize raw ≡ accepted two_cycles
unfolding normalize check_source check_protocol check_mode default_port default_pace check_ttls
    check_packet is_valid unmap
normalize-raw = refl

normalize-IsEffective_example : IsEffective two_cycles
normalize-IsEffective_example = normalize-IsEffective raw two_cycles normalize-raw

normalize-normalize_example : normalize two_cycles ≡ accepted two_cycles
normalize-normalize_example = normalize-normalize raw two_cycles normalize-raw

-- Every probe leaves, under the port and sequence number 7 and its order, 1,000 ns after its turn began.
abbrev wire : ℕ → Outcome
wire n = left n 1_000

abbrev no_names : Addr → String
no_names a = ""

abbrev from_hop : ℕ → Reply
from_hop n = record {
  key = record { proto = udp; is_v6 = false; id = n; seq = 0 };
  from = v4 3221225729;
  kind = exceeded;
  code = 0;
  at = 5_000;
}

abbrev first_turn : Turn
first_turn = record { now = 0; names = no_names; wake = arrive (from_hop 0) [] }

abbrev turns : List Turn
turns =
    first_turn
    ∷ (record { now = 500_000_000; names = no_names; wake = timer })
    ∷ (record { now = 9_000_000_000; names = no_names; wake = timer })
    ∷ []

abbrev cancelling : Turn
cancelling = record { now = 600_000_000; names = no_names; wake = cancel }

begun-Phase : Phase (begin_run 0 0 two_cycles)
begun-Phase = begin_run-Phase 0 0 two_cycles (normalize-IsEffective raw two_cycles normalize-raw)

run-Ends_example :
    Ends none two_cycles (run wire none 0 two_cycles (first_turn ∷ cancelling ∷ turns))
run-Ends_example =
    run-Ends wire none 0 raw two_cycles (first_turn ∷ cancelling ∷ turns) normalize-raw

send_due-rounds_example :
    let s = begin_run 0 0 two_cycles in
    Safe (Caught 9_000_000_000 s) (send_due no_names wire 9_000_000_000 (rounds s) s)
send_due-rounds_example =
    send_due-rounds no_names wire 9_000_000_000 (begin_run 0 0 two_cycles) begun-Phase

try_emit-all_example :
    Safe (λ t. complete_next t ≡ none) (try_emit no_names (begin_run 0 0 two_cycles))
try_emit-all_example =
    try_emit-all no_names (begin_run 0 0 two_cycles).cycle (begin_run 0 0 two_cycles)
      (Phase-Inv (begin_run 0 0 two_cycles) begun-Phase)

-- Two probes answered and one lost.
abbrev history : List ProbeEvent
history = replies (v4 2) 30 ∷ sends ∷ loses ∷ sends ∷ replies (v4 1) 10 ∷ sends ∷ []

replay-IsSummary_example : IsSummary history (replay history)
replay-IsSummary_example = replay-IsSummary history

tally-replay_example : tally (v4 1) (replay history).addrs ≡ replies_from (v4 1) history
tally-replay_example = tally-replay (v4 1) history
