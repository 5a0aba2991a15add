-- ===== src/Backend/Sink/State.antt =====
-- internal/backend/monitorsink.go: what the monitoring sink keeps for each monitor at each site.
-- The entries are a heap that both maps point into, as the Go maps share them. The zero `time.Time` is
-- `none`; an instant counts nanoseconds. The code points of a name stand for its runes.
use prober.Prelude.{
  ℕ, ◌+◌, ◌-◌, ◌*◌, ◌%◌, ◌^◌, ◌≡◌, ◌↔◌, arith, Bool, true, false, ◌&&◌, List, [], ◌∷◌, ◌++◌, Option,
  none, some, get_elem?, set, length, ltb, ◌==◌, if◌then◌else◌,
}
use prober.Prelude.Int.{ℤ, pos, negsuc, ltb_ℤ}
use prober.Prelude.Maps.{Text, Map, Eq, lookup, insert, delete, text_eq, ◌=?◌}
use prober.Trace.Stats.{Float64, of_int}
use prober.Api.{Cycle}

pub record MonKey : Type 0 where
  pub site : Text
  pub monitor : Text

abbrev pub key_beq : MonKey → MonKey → Bool
key_beq a b = a.site =? b.site && a.monitor =? b.monitor

pub key_beq_iff : (a b : MonKey) → (key_beq a b ≡ true) ↔ (a ≡ b)
key_beq_iff a b = ground (arith, text_eq.beq_iff a.site b.site, text_eq.beq_iff a.monitor b.monitor)

instance abbrev pub key_eq : Eq MonKey
key_eq = record { beq = key_beq; beq_iff = key_beq_iff }

-- The fields of `Outcome`; the zero time stands for no outcome yet.
pub record Outcome : Type 0 where
  pub at : Option ℕ
  pub resolved : Text
  pub source : Text
  pub up : Bool
  pub loss_pct : Float64
  pub rtt_us : ℕ
  pub has_rtt : Bool
  pub reached : Bool
  pub cycles : ℕ
  pub hops : ℕ
  pub code : ℕ
  pub reason : Text
  pub responded : Bool
  pub error : Text

abbrev pub no_outcome : Outcome
no_outcome = record {
  at = none;
  resolved = [];
  source = [];
  up = false;
  loss_pct = of_int (pos 0);
  rtt_us = 0;
  has_rtt = false;
  reached = false;
  cycles = 0;
  hops = 0;
  code = 0;
  reason = [];
  responded = false;
  error = [];
}

pub record MonState : Type 0 where
  pub kind : Text
  pub target : Text
  pub transport : Text
  pub resolved : Text
  pub source : Text
  pub protocol : Text
  pub labels : Map Text Text
  pub interval_s : ℕ  -- uint32
  pub started_at : Option ℕ
  pub last_cycle : Option Cycle
  pub last : Outcome

pub data MonitorState : Type 0 where
  state_up state_down state_partial state_nodata : MonitorState

pub record Aggregate : Type 0 where
  pub state : MonitorState
  pub up : ℕ
  pub down : ℕ
  pub stale : ℕ
  pub sites : ℕ
  pub since : Option ℕ

-- One message on the status stream: `ID` with `Aggregate`, or `Changes`, or `Version`.
pub data StatusEvent : Type 0 where
  one_changed : Text → Aggregate → StatusEvent
  some_changed : Map Text Aggregate → StatusEvent
  reloaded : ℕ → StatusEvent

-- Who asks for what the series of the metrics are: the values of the labels.
pub record Labels : Type 0 where
  pub site : Text
  pub monitor : Text
  pub kind : Text
  pub target : Text
  pub transport : Text

-- What the sink does to its metrics. Observed times are microseconds.
pub data MetricOp : Type 0 where
  count_probe count_success : Labels → MetricOp
  observe_rtt : Labels → ℕ → MetricOp
  set_loss : Labels → Float64 → MetricOp
  set_up : Labels → Bool → MetricOp
  count_response : Labels → Option ℕ → MetricOp
  delete_series : MonKey → MetricOp

-- What a log record is made of.
pub record Report : Type 0 where
  pub site : Text
  pub monitor : Text
  pub target : Text
  pub started_at : Option ℕ
  pub resolved : Text
  pub source : Text
  pub protocol : Text
  pub labels : Map Text Text
  pub cycle : Cycle
  pub error : Text

-- `by_monitor` is the state by monitor, then by site. `subs` has the events in the channel of each
-- subscriber that has not been closed, the oldest first, by the subscriber's number.
pub record Sink : Type 0 where
  pub heap : List MonState
  pub state : Map MonKey ℕ
  pub by_monitor : Map Text (Map Text ℕ)
  pub agg : Map Text Aggregate
  pub subs : Map ℕ (List StatusEvent)
  pub next_sub : ℕ
  pub metrics : List MetricOp
  pub reports : List Report

unfoldable pub new_sink : Sink
new_sink = record {
  heap = [];
  state = [];
  by_monitor = [];
  agg = [];
  subs = [];
  next_sub = 0;
  metrics = [];
  reports = [];
}

abbrev pub second : ℕ
second = 1_000_000_000

-- The value of an int64 from its bits.
unfoldable pub signed64 : ℕ → ℤ
signed64 w =
    if ltb (w % 2 ^ 64) (2 ^ 63) then pos (w % 2 ^ 64) else negsuc (2 ^ 64 - w % 2 ^ 64 - 1)

abbrev pub max_ℤ : ℤ → ℤ → ℤ
max_ℤ a b = if ltb_ℤ a b then b else a

unfoldable pub stale_after : ℕ → ℤ
unfolding signed64
stale_after interval_s = max_ℤ (signed64 (3 * interval_s * second)) (pos (60 * second))

abbrev pub forget_after : ℤ
forget_after = pos (3600 * second)

-- `2 * staleAfter` wraps as any product of int64s.
unfoldable pub double64 : ℤ → ℤ
unfolding signed64
double64 (pos n) = signed64 (2 * n)
double64 (negsuc n) = signed64 (2 ^ 64 - 2 * (n + 1) % 2 ^ 64)

unfoldable pub forget_after_for : ℕ → ℤ
unfolding stale_after double64
forget_after_for interval_s = max_ℤ forget_after (double64 (stale_after interval_s))

-- How long ago; an instant in the future counts as now, since every window is positive.
abbrev pub is_older : ℕ → ℤ → ℕ → Bool
is_older now window at = ltb_ℤ window (pos (now - at))

-- `x[i].f = v` through a pointer.
abbrev pub update_found :
    ℕ → (MonState → MonState) → Option MonState → List MonState → List MonState
update_found ptr f none heap = heap
update_found ptr f (some st) heap = set heap ptr (f st)

unfoldable pub update_state : ℕ → (MonState → MonState) → Sink → Sink
update_state ptr f s = record s { heap = update_found ptr f (get_elem? s.heap ptr) s.heap }

unfoldable pub add_metric : MetricOp → Sink → Sink
add_metric op s = record s { metrics = s.metrics ++ op ∷ [] }

abbrev pub sites_or_empty : Option (Map Text ℕ) → Map Text ℕ
sites_or_empty none = []
sites_or_empty (some sites) = sites

-- `s.byMonitor[id]`, nil when missing.
abbrev pub sites_of : Text → Sink → Map Text ℕ
sites_of id s = sites_or_empty (lookup id s.by_monitor)

-- Puts an entry under its site, in both maps.
unfoldable pub place : Text → Text → ℕ → Sink → Sink
place site id ptr s = record s {
  state = insert (record { site = site; monitor = id }) ptr s.state;
  by_monitor = insert id (insert site ptr (sites_of id s)) s.by_monitor;
}

abbrev pub is_at : ℕ → Option ℕ → Bool
is_at ptr none = false
is_at ptr (some p) = p == ptr

unfoldable pub keep_locked : Text → Text → ℕ → Sink → Sink
unfolding place
keep_locked site id ptr s =
    if is_at ptr (lookup (record { site = site; monitor = id }) s.state)
    then s
    else place site id ptr s

abbrev pub without_site :
    Text → Text → Option (Map Text ℕ) → Map Text (Map Text ℕ) → Map Text (Map Text ℕ)
without_site site id none by_monitor = by_monitor
without_site site id (some sites) by_monitor =
    let left = delete site sites in
    if length left == 0 then delete id by_monitor else insert id left by_monitor

unfoldable pub forget_locked : MonKey → Sink → Sink
unfolding add_metric
forget_locked k s =
    let t = add_metric (delete_series k) s in
    record t {
      state = delete k t.state;
      by_monitor = without_site k.site k.monitor (lookup k.monitor t.by_monitor) t.by_monitor;
    }
