-- ===== src/Trace/Session/State.antt =====
-- internal/trace/session.go: the state of a run, and internal/trace/event.go's events.
-- Instants and durations are nanoseconds. Probes are shared between the registry and the queue by
-- pointer, so they live on a heap, and a pointer is a position on it. `registered` is the part of
-- the engine's probe table that leads to this session. `emitted` holds the events passed to `emit`,
-- the oldest first, and `attempts` counts the sends tried, by which the outcomes of the network are
-- numbered. The payload, the sockets and their options do not come back into the state, and are
-- left out.
use prober.Prelude.{ℕ, Bool, true, false, List, [], ◌∷◌, ◌++◌, Option, none, some, set}
use prober.Prelude.Int.{ℤ, pos_part}
use prober.Prelude.Maps.{Map, lookup, insert, delete, nat_eq}
use prober.Trace.Probe.{ProbeKey, key_eq}
use prober.Trace.Spec.{Spec}
use prober.Trace.Stats.{HopStats, Hop, new_stats}

pub record Probe : Type 0 where
  pub key : ProbeKey
  pub ttl : ℕ
  pub cycle : ℕ
  pub sent_at : ℕ
  pub deadline : ℕ
  pub settled : Bool

pub record CycleState : Type 0 where
  pub number : ℕ
  pub ttls : List ℕ
  pub sending : Bool
  pub outstanding : ℤ
  pub samples : Map ℕ (Option ℕ)
  pub target_seen : Bool

pub record Cycle : Type 0 where
  pub number : ℕ
  pub reached_at : ℕ
  pub hops : List Hop

pub data Event : Type 0 where
  started : Spec → Event
  cycle_done : Cycle → Event
  finished : Bool → Event
  failed : Event

pub record Session : Type 0 where
  pub spec : Spec
  pub icmp_id : ℕ  -- uint16
  pub seq : ℕ  -- uint16
  pub heap : List Probe
  pub probes : Map ProbeKey ℕ
  pub registered : Map ProbeKey (Unit {0})
  pub queue : List ℕ
  pub hops : Map ℕ HopStats
  pub cycles : Map ℕ CycleState
  pub cycle : ℕ
  pub next_emit : ℕ
  pub send_idx : ℕ
  pub cycle_ttls : List ℕ
  pub cycle_start : ℕ
  pub next_send_at : ℕ
  pub sending_done : Bool
  pub reached_at : ℕ
  pub missed_target : ℕ
  pub attempts : ℕ
  pub emitted : List Event

abbrev pub missed_target_limit : ℕ
missed_target_limit = 3

unfoldable pub new_session : Spec → Session
new_session spec = record {
  spec = spec;
  icmp_id = 0;
  seq = 0;
  heap = [];
  probes = [];
  registered = [];
  queue = [];
  hops = [];
  cycles = [];
  cycle = 0;
  next_emit = 1;
  send_idx = 0;
  cycle_ttls = [];
  cycle_start = 0;
  next_send_at = 0;
  sending_done = false;
  reached_at = 0;
  missed_target = 0;
  attempts = 0;
  emitted = [];
}

-- How a step of the run ends: it goes on, an error ends the run, or Go panics.
pub data Run {ℓ} (A : Type ℓ) : Type ℓ where
  ok : A → Run A
  fatal : A → Run A
  panic : Run A

infixl 5 ◌>>=◌
abbrev pub ◌>>=◌ {ℓ} : {A : Type ℓ} → Run A → (A → Run A) → Run A
ok a >>= f = f a
fatal a >>= f = fatal a
panic >>= f = panic

unfoldable pub emit : Event → Session → Session
emit e s = record s { emitted = s.emitted ++ e ∷ [] }

-- The statistics of a TTL: those that `hop` finds, or makes.
abbrev pub hop_or_new : Option HopStats → HopStats
hop_or_new none = new_stats
hop_or_new (some h) = h

abbrev pub hop : ℕ → Map ℕ HopStats → HopStats
hop ttl hops = hop_or_new (lookup ttl hops)

unfoldable pub update_hop : ℕ → (HopStats → HopStats) → Session → Session
update_hop ttl f s = record s { hops = insert ttl (f (hop ttl s.hops)) s.hops }

abbrev pub update_found :
    ℕ → (CycleState → CycleState) → Option CycleState → Map ℕ CycleState → Map ℕ CycleState
update_found n f none cycles = cycles
update_found n f (some c) cycles = insert n (f c) cycles

-- `if c := s.cycles[n]; c != nil { … }`: a write through the pointer to an open cycle.
unfoldable pub update_cycle : ℕ → (CycleState → CycleState) → Session → Session
update_cycle n f s = record s { cycles = update_found n f (lookup n s.cycles) s.cycles }

-- The same without the test for nil.
abbrev pub need_cycle : ℕ → (CycleState → Run Session) → Option CycleState → Run Session
need_cycle n k none = panic
need_cycle n k (some c) = k c

-- Takes the probe at `ptr` out of the registry and of the engine's table. Its entry in the queue
-- stays, flagged.
unfoldable pub settle : ℕ → Probe → Session → Session
settle ptr p s = record s {
  heap = set s.heap ptr (record p { settled = true });
  probes = delete p.key s.probes;
  registered = delete p.key s.registered;
}

abbrev pub first_ttl : Session → ℕ
first_ttl s = pos_part s.spec.first_ttl

abbrev pub max_ttl : Session → ℕ
max_ttl s = pos_part s.spec.max_ttl

abbrev pub cycle_count : Session → ℕ
cycle_count s = pos_part s.spec.cycles

abbrev pub interval : Session → ℕ
interval s = pos_part s.spec.interval

abbrev pub probe_timeout : Session → ℕ
probe_timeout s = pos_part s.spec.probe_timeout
