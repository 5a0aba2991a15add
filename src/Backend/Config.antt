-- ===== src/Backend/Config.antt =====
-- internal/backend/config.go: the backend's configuration and its validation. A check returns Go's
-- `error` as an option, `none` for nil; an error keeps what its message names. The authentication,
-- log-shipping and path settings are not read by any code that is modelled.
pub mod Checks
pub mod Monitors
pub mod Agents
pub mod Validity
use prober.Prelude.{
  ℕ, ◌+◌, ◌*◌, Bool, true, false, ◌&&◌, ◌||◌, not, List, [], ◌∷◌, Option, none, some, ◌==◌,
  if◌then◌else◌,
}
use prober.Prelude.Int.{ℤ, pos, leb_ℤ}
use prober.Prelude.Maps.{Text, codes, Map, lookup, insert, text_eq, ◌=?◌}

pub record TraceParams : Type 0 where
  pub protocol : Text
  pub family : Text
  pub port : ℕ
  pub cycles : ℕ
  pub interval_ms : ℕ
  pub first_ttl : ℕ
  pub max_ttl : ℕ
  pub resolve_names : Bool

pub record SipParams : Type 0 where
  pub transport : Text
  pub family : Text
  pub port : ℕ
  pub cycles : ℕ
  pub interval_ms : ℕ
  pub timeout_ms : ℕ

pub record MonitorConfig : Type 0 where
  pub id : Text
  pub kind : Text
  pub target : Text
  pub interval_s : ℕ
  pub sites : List Text
  pub labels : Map Text Text
  pub trace : Option TraceParams
  pub sip : Option SipParams

pub record GrpcListen : Type 0 where
  pub addr : Text
  pub cert : Text
  pub cert_file : Text
  pub key : Text
  pub key_file : Text

pub record ListenConfig : Type 0 where
  pub grpc : GrpcListen
  pub http : Text
  pub metrics : Text

pub record AgentAuth : Type 0 where
  pub site : Text
  pub token : Text

pub record Config : Type 0 where
  pub listen : ListenConfig
  pub agent_token : Text
  pub allowed_sites : List Text
  pub agents : List AgentAuth
  pub run_ttl : ℤ
  pub monitors : List MonitorConfig

pub data ConfigError : Type 0 where
  grpc_addr_required cert_required key_required two_certs two_keys http_required : ConfigError
  agent_incomplete duplicate_token id_required : ℕ → ConfigError
  duplicate_site duplicate_id target_required interval_zero kind_required : ℕ → Text → ConfigError
  unknown_kind : ℕ → Text → Text → ConfigError

abbrev pub is_blank : Text → Bool
is_blank [] = true
is_blank (c ∷ cs) = false

-- A read of a Go `map[string]bool`.
abbrev pub is_seen : Text → Map Text Bool → Bool
is_seen k m = elim (lookup k m) [ none ↦ false | some b ↦ b ]

abbrev pub trace_kind : Text
trace_kind = codes "trace"

abbrev pub ping_kind : Text
ping_kind = codes "ping"

abbrev pub sip_kind : Text
sip_kind = codes "sip"

abbrev pub is_known_kind : Text → Bool
is_known_kind k = k =? trace_kind || k =? ping_kind || k =? sip_kind

abbrev pub check_kind : ℕ → MonitorConfig → Option ConfigError
check_kind i m =
    if is_known_kind m.kind
    then none
    else if is_blank m.kind
    then some (kind_required i m.id)
    else some (unknown_kind i m.id m.kind)

-- One round of the loop of `validateMonitors`.
unfoldable pub check_monitor : ℕ → Map Text Bool → MonitorConfig → Option ConfigError
check_monitor i ids m =
    if is_blank m.id
    then some (id_required i)
    else if is_seen m.id ids
    then some (duplicate_id i m.id)
    else if is_blank m.target
    then some (target_required i m.id)
    else if m.interval_s == 0
    then some (interval_zero i m.id)
    else check_kind i m

abbrev pub first_error : Option ConfigError → Option ConfigError → Option ConfigError
first_error none k = k
first_error (some e) k = some e

unfoldable pub monitors_from : ℕ → Map Text Bool → List MonitorConfig → Option ConfigError
unfolding check_monitor insert
monitors_from i ids [] = none
monitors_from i ids (m ∷ ms) =
    first_error (check_monitor i ids m) (monitors_from (i + 1) (insert m.id true ids) ms)

unfoldable pub validate_monitors : List MonitorConfig → Option ConfigError
unfolding monitors_from
validate_monitors ms = monitors_from 0 [] ms

-- One round of the loop over the agents.
unfoldable pub check_agent : ℕ → Map Text Bool → Map Text Bool → AgentAuth → Option ConfigError
check_agent i seen tokens a =
    if is_blank a.site || is_blank a.token
    then some (agent_incomplete i)
    else if is_seen a.site seen
    then some (duplicate_site i a.site)
    else if is_seen a.token tokens
    then some (duplicate_token i)
    else none

unfoldable pub agents_from : ℕ → Map Text Bool → Map Text Bool → List AgentAuth → Option ConfigError
unfolding check_agent insert
agents_from i seen tokens [] = none
agents_from i seen tokens (a ∷ rest) =
    first_error (check_agent i seen tokens a)
      (agents_from (i + 1) (insert a.site true seen) (insert a.token true tokens) rest)

unfoldable pub check_listen : ListenConfig → Option ConfigError
check_listen l =
    if is_blank l.grpc.addr
    then some grpc_addr_required
    else if is_blank l.grpc.cert && is_blank l.grpc.cert_file
    then some cert_required
    else if is_blank l.grpc.key && is_blank l.grpc.key_file
    then some key_required
    else if not (is_blank l.grpc.cert) && not (is_blank l.grpc.cert_file)
    then some two_certs
    else if not (is_blank l.grpc.key) && not (is_blank l.grpc.key_file)
    then some two_keys
    else if is_blank l.http
    then some http_required
    else none

unfoldable pub validate : Config → Option ConfigError
unfolding check_listen agents_from validate_monitors
validate c =
    first_error (check_listen c.listen)
      (first_error (agents_from 0 [] [] c.agents) (validate_monitors c.monitors))

-- Five minutes, in nanoseconds, unless it is set.
unfoldable pub run_ttl : Config → ℤ
run_ttl c = if leb_ℤ c.run_ttl (pos 0) then pos (5 * 60 * 1_000_000_000) else c.run_ttl
