-- ===== src/Backend/Registry.antt =====
-- internal/backend/monitor.go: the configured monitors and what is assigned to each site, with the
-- messages of the API that carry it, and the readings of settings by internal/backend/http.go.
-- The version, a uint64, is not bounded: each reload adds one.
pub mod Assignments
use prober.Prelude.{
  ℕ, ◌+◌, Bool, true, false, ◌||◌, List, [], ◌∷◌, map, Option, none, some, if◌then◌else◌,
}
use prober.Prelude.Maps.{Text, codes, Map, lookup, insert, text_eq, ◌=?◌}
use prober.Backend.Config.{MonitorConfig, TraceParams, SipParams, ping_kind, sip_kind}

pub data Protocol : Type 0 where
  icmp udp tcp : Protocol

pub data Family : Type 0 where
  unspecified ipv4 ipv6 : Family

pub data SipTransport : Type 0 where
  sip_udp sip_tcp sip_tls sip_wss : SipTransport

pub data TraceMode : Type 0 where
  mtr ping : TraceMode

abbrev pub one_of : Text → Text → Text → Bool
one_of a b s = s =? a || s =? b

unfoldable pub proto_of : Text → Protocol
proto_of s =
    if one_of (codes "tcp") (codes "TCP") s
    then tcp
    else if one_of (codes "udp") (codes "UDP") s
    then udp
    else icmp

unfoldable pub family_of : Text → Family
family_of s =
    if one_of (codes "4") (codes "ipv4") s
    then ipv4
    else if one_of (codes "6") (codes "ipv6") s
    then ipv6
    else unspecified

unfoldable pub sip_transport_of : Text → SipTransport
sip_transport_of s =
    if s =? codes "tcp"
    then sip_tcp
    else if s =? codes "tls"
    then sip_tls
    else if s =? codes "wss"
    then sip_wss
    else sip_udp

pub record TraceSpec : Type 0 where
  pub target : Text
  pub protocol : Protocol
  pub family : Family
  pub port : ℕ
  pub resolve_names : Bool
  pub cycles : ℕ
  pub interval_ms : ℕ
  pub first_ttl : ℕ
  pub max_ttl : ℕ
  pub mode : TraceMode

pub record SipOptionsSpec : Type 0 where
  pub target : Text
  pub port : ℕ
  pub transport : SipTransport
  pub family : Family
  pub cycles : ℕ
  pub interval_ms : ℕ
  pub timeout_ms : ℕ
  pub source : Text
  pub user_agent : Text

-- The `oneof` of a monitor and of a job; `no_spec` is one that is not set.
pub data JobSpec : Type 0 where
  no_spec : JobSpec
  trace_job : TraceSpec → JobSpec
  sip_job : SipOptionsSpec → JobSpec

pub record Monitor : Type 0 where
  pub id : Text
  pub interval_s : ℕ
  pub labels : Map Text Text
  pub spec : JobSpec

pub record Assignment : Type 0 where
  pub version : ℕ
  pub monitors : List Monitor

abbrev pub no_trace_params : TraceParams
no_trace_params = record {
  protocol = [];
  family = [];
  port = 0;
  cycles = 0;
  interval_ms = 0;
  first_ttl = 0;
  max_ttl = 0;
  resolve_names = false;
}

abbrev pub no_sip_params : SipParams
no_sip_params = record {
  transport = [];
  family = [];
  port = 0;
  cycles = 0;
  interval_ms = 0;
  timeout_ms = 0;
}

abbrev pub get_or_else {ℓ} : {A : Type ℓ} → A → Option A → A
get_or_else d none = d
get_or_else d (some a) = a

unfoldable pub sip_spec_of : Text → SipParams → SipOptionsSpec
unfolding sip_transport_of family_of
sip_spec_of target p = record {
  target = target;
  port = p.port;
  transport = sip_transport_of p.transport;
  family = family_of p.family;
  cycles = p.cycles;
  interval_ms = p.interval_ms;
  timeout_ms = p.timeout_ms;
  source = [];
  user_agent = [];
}

unfoldable pub trace_spec_of : Text → Text → TraceParams → TraceSpec
unfolding proto_of family_of
trace_spec_of kind target p = record {
  target = target;
  protocol = proto_of p.protocol;
  family = family_of p.family;
  port = p.port;
  resolve_names = p.resolve_names;
  cycles = p.cycles;
  interval_ms = p.interval_ms;
  first_ttl = p.first_ttl;
  max_ttl = p.max_ttl;
  mode = if kind =? ping_kind then ping else mtr;
}

unfoldable pub monitor_to_proto : MonitorConfig → Monitor
unfolding sip_spec_of trace_spec_of
monitor_to_proto m = record {
  id = m.id;
  interval_s = m.interval_s;
  labels = m.labels;
  spec =
      if m.kind =? sip_kind
      then sip_job (sip_spec_of m.target (get_or_else no_sip_params m.sip))
      else trace_job (trace_spec_of m.kind m.target (get_or_else no_trace_params m.trace));
}

pub record MonitorRegistry : Type 0 where
  pub version : ℕ
  pub by_id : Map Text MonitorConfig
  pub order : List Text

abbrev pub fill : List MonitorConfig → Map Text MonitorConfig → Map Text MonitorConfig
fill [] by_id = by_id
fill (m ∷ ms) by_id = fill ms (insert m.id m by_id)

unfoldable pub set_monitors : List MonitorConfig → ℕ → MonitorRegistry
set_monitors ms version = record {
  version = version;
  by_id = fill ms [];
  order = map (λ (m : MonitorConfig). m.id) ms;
}

unfoldable pub new_registry : List MonitorConfig → MonitorRegistry
unfolding set_monitors
new_registry ms = set_monitors ms 1

unfoldable pub replace : List MonitorConfig → MonitorRegistry → MonitorRegistry
unfolding set_monitors
replace ms r = set_monitors ms (r.version + 1)

-- Go's zero value, which a read of a missing key gives.
abbrev pub zero_monitor : MonitorConfig
zero_monitor = record {
  id = [];
  kind = [];
  target = [];
  interval_s = 0;
  sites = [];
  labels = [];
  trace = none;
  sip = none;
}

abbrev pub monitor_at : Text → Map Text MonitorConfig → MonitorConfig
monitor_at id by_id = get_or_else zero_monitor (lookup id by_id)

unfoldable pub list_versioned : MonitorRegistry → List MonitorConfig × ℕ
list_versioned r = (map (λ (id : Text). monitor_at id r.by_id) r.order, r.version)

abbrev pub has_site : Text → List Text → Bool
has_site site [] = false
has_site site (s ∷ sites) = s =? site || has_site site sites

unfoldable pub site_matches : List Text → Text → Bool
site_matches [] site = true
site_matches (s ∷ sites) site = has_site site (s ∷ sites)

abbrev pub assigned : Text → Map Text MonitorConfig → List Text → List Monitor
assigned site by_id [] = []
assigned site by_id (id ∷ order) =
    let m = monitor_at id by_id in
    let rest = assigned site by_id order in
    if site_matches m.sites site then monitor_to_proto m ∷ rest else rest

unfoldable pub assignment_for : Text → MonitorRegistry → Assignment
assignment_for site r = record { version = r.version; monitors = assigned site r.by_id r.order }
