-- ===== src/Backend/Sink/Events.antt =====
-- internal/backend/monitorsink.go: what an event of a monitor's job does. A handler takes the sink's lock
-- several times; here it is one step, and its parts are the functions that it is made of. `now` is the
-- clock that all of them read.
use prober.Prelude.{
  ℕ, Bool, true, false, List, [], ◌∷◌, ◌++◌, Option, none, some, get_elem?, length, ltb, ◌==◌,
  if◌then◌else◌,
}
use prober.Prelude.Int.{pos}
use prober.Prelude.Maps.{Text, codes, lookup, text_eq, ◌=?◌}
use prober.Trace.Stats.{Float64, of_int, mul, div}
use prober.Api.{
  Protocol, protocol_unspecified, protocol_icmp, protocol_udp, protocol_tcp, Hop, Cycle, SipResult,
  Started, ErrorCode, code_unspecified, code_resolve, code_limit, code_engine, Event, started,
  cycle, sip_result, dns_result, finished, error,
}
use prober.Backend.Config.{MonitorConfig, TraceParams, SipParams, is_blank, sip_kind, trace_kind}
use prober.Backend.Registry.{MonitorRegistry}
use prober.Backend.Sink.State.{
  key_eq, Outcome, no_outcome, MonState, Labels, count_probe, count_success, observe_rtt, set_loss,
  set_up, count_response, Report, Sink, update_state, add_metric, place, keep_locked,
}
use prober.Backend.Sink.Stream.{refresh}

-- The hop at the TTL at which the target answered.
abbrev pub hop_at : ℕ → List Hop → Option Hop
hop_at ttl [] = none
hop_at ttl (h ∷ hops) = if h.ttl == ttl then some h else hop_at ttl hops

abbrev pub last_hop : List Hop → Option Hop
last_hop [] = none
last_hop (h ∷ []) = some h
last_hop (h ∷ k ∷ hops) = last_hop (k ∷ hops)

abbrev pub judged_by : Option Hop → List Hop → Option Hop × Bool
judged_by none hops = (last_hop hops, false)
judged_by (some h) hops = (some h, ltb 0 h.received)

unfoldable pub dest_hop : Cycle → Option Hop × Bool
dest_hop c = judged_by (if ltb 0 c.reached_at then hop_at c.reached_at c.hops else none) c.hops

unfoldable pub monitor_kind : MonitorConfig → Text
monitor_kind m = if is_blank m.kind then trace_kind else m.kind

abbrev pub trace_protocol : Option TraceParams → Text
trace_protocol none = codes "icmp"
trace_protocol (some t) = if is_blank t.protocol then codes "icmp" else t.protocol

unfoldable pub monitor_protocol : MonitorConfig → Text
monitor_protocol m = if m.kind =? sip_kind then [] else trace_protocol m.trace

abbrev pub sip_transport : Option SipParams → Text
sip_transport none = codes "udp"
sip_transport (some p) = if is_blank p.transport then codes "udp" else p.transport

unfoldable pub monitor_transport : MonitorConfig → Text
unfolding monitor_protocol
monitor_transport m = if m.kind =? sip_kind then sip_transport m.sip else monitor_protocol m

unfoldable pub proto_name : Protocol → Text
proto_name protocol_unspecified = []
proto_name protocol_tcp = codes "tcp"
proto_name protocol_udp = codes "udp"
proto_name protocol_icmp = codes "icmp"

unfoldable pub new_state : MonitorConfig → MonState
unfolding monitor_kind monitor_transport monitor_protocol
new_state mc = record {
  kind = monitor_kind mc;
  target = mc.target;
  transport = monitor_transport mc;
  resolved = [];
  source = [];
  protocol = monitor_protocol mc;
  labels = mc.labels;
  interval_s = mc.interval_s;
  started_at = none;
  last_cycle = none;
  last = no_outcome;
}

abbrev pub state_made : Text → Text → Option MonitorConfig → Sink → Option ℕ × Sink
state_made site id none s = (none, s)
state_made site id (some mc) s = (
  some (length s.heap),
  place site id (length s.heap) (record s { heap = s.heap ++ new_state mc ∷ [] }),
)

abbrev pub state_found : Text → Text → MonitorRegistry → Option ℕ → Sink → Option ℕ × Sink
state_found site id reg none s = state_made site id (lookup id reg.by_id) s
state_found site id reg (some ptr) s = (some ptr, s)

-- The entry of a monitor at a site, and the sink with it.
unfoldable pub state_for : Text → Text → MonitorRegistry → Sink → Option ℕ × Sink
unfolding new_state place
state_for site id reg s =
    state_found site id reg (lookup (record { site = site; monitor = id }) s.state) s

-- Where in the sink an event is handled.
pub record Spot : Type 0 where
  pub site : Text
  pub id : Text
  pub ptr : ℕ
  pub labels : Labels

-- `s.keepLocked(…); st.last = …`, of one lock.
unfoldable pub record_outcome : Spot → (MonState → MonState) → Sink → Sink
unfolding keep_locked update_state
record_outcome spot f s = update_state spot.ptr f (keep_locked spot.site spot.id spot.ptr s)

unfoldable pub on_started : ℕ → Spot → Option ℕ → Started → Sink → Sink
unfolding update_state proto_name
on_started now spot time st = update_state spot.ptr λ (m : MonState). record m {
  resolved = st.resolved;
  source = st.source;
  protocol = elim st.protocol [ protocol_unspecified ↦ m.protocol | p ↦ proto_name p ];
  started_at = elim time [ none ↦ some now | some t ↦ some t ];
  last_cycle = none;
}

abbrev pub hundred : Float64
hundred = of_int (pos 100)

abbrev pub reached_hop : Option Hop × Bool → Option Hop
reached_hop (h, reached) = if reached then h else none

abbrev pub loss_ratio : Option Hop → Float64
loss_ratio none = of_int (pos 1)
loss_ratio (some h) = div h.loss_pct hundred

abbrev pub avg_of : Option Hop → ℕ
avg_of none = 0
avg_of (some h) = h.avg_us

abbrev pub is_there {ℓ} : {A : Type ℓ} → Option A → Bool
is_there none = false
is_there (some x) = true

abbrev pub cycle_outcome : ℕ → Cycle → Option Hop → MonState → Outcome
cycle_outcome now c hop m = record no_outcome {
  at = some now;
  resolved = m.resolved;
  source = m.source;
  up = is_there hop;
  loss_pct = mul (loss_ratio hop) hundred;
  reached = is_there hop;
  cycles = c.number;
  hops = length c.hops;
  rtt_us = avg_of hop;
  has_rtt = is_there hop;
}

abbrev pub success_metrics : Labels → Option Hop → Sink → Sink
success_metrics lv none s = s
success_metrics lv (some h) s =
    add_metric (observe_rtt lv h.avg_us) (add_metric (count_success lv) s)

unfoldable pub on_cycle : ℕ → Spot → Cycle → Sink → Sink
unfolding dest_hop add_metric record_outcome
on_cycle now spot c s =
    let hop = reached_hop (dest_hop c) in
    let t = success_metrics spot.labels hop (add_metric (count_probe spot.labels) s) in
    let u =
      add_metric (set_loss spot.labels (loss_ratio hop))
        (add_metric (set_up spot.labels (is_there hop)) t) in
    record_outcome spot
      (λ (m : MonState). record m {
        last = cycle_outcome now c hop m;
        last_cycle = if m.kind =? trace_kind then some c else m.last_cycle;
      })
      u

-- The round-trip time of a final response.
abbrev pub response_rtt : SipResult → Option ℕ
response_rtt r = if r.responded then r.rtt_us else none

abbrev pub number_or_zero : Option ℕ → ℕ
number_or_zero none = 0
number_or_zero (some n) = n

abbrev pub sip_outcome : ℕ → SipResult → MonState → Outcome
sip_outcome now r m = record no_outcome {
  at = some now;
  resolved = m.resolved;
  source = m.source;
  up = r.responded;
  code = r.status_code;
  reason = r.reason;
  responded = r.responded;
  rtt_us = number_or_zero (response_rtt r);
  has_rtt = is_there (response_rtt r);
}

abbrev pub rtt_metric : Labels → Option ℕ → Sink → Sink
rtt_metric lv none s = s
rtt_metric lv (some us) s = add_metric (observe_rtt lv us) s

-- The code of a response that did not come is `timeout`, here `none`.
unfoldable pub on_sip_result : ℕ → Spot → SipResult → Sink → Sink
unfolding add_metric record_outcome
on_sip_result now spot r s =
    let lv = spot.labels in
    let t =
      add_metric (count_response lv (if r.responded then some r.status_code else none))
        (add_metric (count_probe lv) s) in
    let u = if r.responded then add_metric (count_success lv) t else t in
    record_outcome spot (λ (m : MonState). record m { last = sip_outcome now r m })
      (rtt_metric lv (response_rtt r) (add_metric (set_up lv r.responded) u))

unfoldable pub drop_report : Spot → Sink → Sink
unfolding update_state
drop_report spot = update_state spot.ptr (λ (m : MonState). record m { last_cycle = none })

abbrev pub report_of : Spot → Text → MonState → Option Cycle → List Report
report_of spot message m none = []
report_of spot message m (some c) =
    (record {
      site = spot.site;
      monitor = spot.id;
      target = m.target;
      started_at = m.started_at;
      resolved = m.resolved;
      source = m.source;
      protocol = m.protocol;
      labels = m.labels;
      cycle = c;
      error = message;
    })
    ∷ []

abbrev pub reports_at : Spot → Text → Option MonState → List Report
reports_at spot message none = []
reports_at spot message (some m) = report_of spot message m m.last_cycle

-- `enabled` is whether the log client is there and enabled.
unfoldable pub ship_report : Bool → Spot → Text → Sink → Sink
unfolding drop_report
ship_report enabled spot message s =
    let t = drop_report spot s in
    record t {
      reports =
          if enabled
          then t.reports ++ reports_at spot message (get_elem? s.heap spot.ptr)
          else t.reports;
    }

abbrev pub error_outcome : ℕ → Text → MonState → Outcome
error_outcome now message m = record no_outcome {
  at = some now;
  resolved = m.resolved;
  source = m.source;
  error = message;
  loss_pct = if m.kind =? sip_kind then of_int (pos 0) else hundred;
}

abbrev pub is_engine : ErrorCode → Bool
is_engine code_unspecified = false
is_engine code_resolve = false
is_engine code_limit = false
is_engine code_engine = true

unfoldable pub on_error : Bool → ℕ → Spot → ErrorCode → Text → Sink → Sink
unfolding add_metric record_outcome ship_report drop_report
on_error enabled now spot code message s =
    let t = add_metric (set_up spot.labels false) (add_metric (count_probe spot.labels) s) in
    let u =
      record_outcome spot (λ (m : MonState). record m { last = error_outcome now message m }) t in
    if is_engine code then ship_report enabled spot message u else drop_report spot u

-- The `switch` of `OnMonitorEvent`, with the refresh that the kinds of event with a result end in.
unfoldable pub handle : Bool → ℕ → Spot → Event → Sink → Sink
unfolding on_started on_cycle on_sip_result drop_report ship_report on_error refresh
handle enabled now spot (started time st) s = on_started now spot time st s
handle enabled now spot (cycle c) s = refresh spot.id now (on_cycle now spot c s)
handle enabled now spot (sip_result r) s = refresh spot.id now (on_sip_result now spot r s)
handle enabled now spot dns_result s = s
handle enabled now spot (finished cancelled) s =
    if cancelled then drop_report spot s else ship_report enabled spot [] s
handle enabled now spot (error code message) s =
    refresh spot.id now (on_error enabled now spot code message s)

abbrev pub labels_for : Text → Text → MonState → Labels
labels_for site id m = record {
  site = site;
  monitor = id;
  kind = m.kind;
  target = m.target;
  transport = m.transport;
}

abbrev pub handle_at : Bool → ℕ → Text → Text → Event → ℕ → Option MonState → Sink → Sink
handle_at enabled now site id ev ptr none s = s
handle_at enabled now site id ev ptr (some m) s =
    handle enabled now (record { site = site; id = id; ptr = ptr; labels = labels_for site id m })
      ev s

abbrev pub handle_found : Bool → ℕ → Text → Text → Event → Option ℕ × Sink → Sink
handle_found enabled now site id ev (none, s) = s
handle_found enabled now site id ev (some ptr, s) =
    handle_at enabled now site id ev ptr (get_elem? s.heap ptr) s

unfoldable pub on_monitor_event : Bool → ℕ → MonitorRegistry → Text → Text → Event → Sink → Sink
unfolding state_for handle
on_monitor_event enabled now reg site id ev s =
    handle_found enabled now site id ev (state_for site id reg s)
