-- ===== src/Sip.antt =====
-- internal/sip/sip.go: what one probe is to do, and internal/agent/sipconvert.go: how the agent reads it from the
-- message of a job, with what `startSip` of internal/agent/agent.go sets. Durations count nanoseconds and are not bounded.
pub mod Defaults
mod Tests
use prober.Prelude.{
  ℕ, ◌*◌, ◌%◌, Bool, true, false, not, List, [], ◌∷◌, ◌++◌, Option, none, some, ltb, ◌==◌,
  if◌then◌else◌,
}
use prober.Prelude.Int.{ℤ, pos, leb_ℤ}
use prober.Prelude.Maps.{Text, codes}
use prober.Netip.{Addr, zero_addr, is_valid, unmap}
use prober.Backend.Config.{is_blank}
use prober.Backend.Registry.{SipTransport, sip_udp, sip_tcp, sip_tls, sip_wss, SipOptionsSpec}

abbrev pub second : ℕ
second = 1_000_000_000

-- A uint8; 0 is one that is not set.
abbrev pub udp : ℕ
udp = 1

abbrev pub tcp : ℕ
tcp = 2

abbrev pub tls : ℕ
tls = 3

abbrev pub wss : ℕ
wss = 4

unfoldable pub default_port : ℕ → ℕ
default_port transport = if transport == tls then 5061 else if transport == wss then 443 else 5060

pub record Spec : Type 0 where
  pub target : Addr
  pub port : ℕ  -- uint16
  pub transport : ℕ  -- uint8
  pub cycles : ℕ
  pub interval : ℤ
  pub timeout : ℤ
  pub source : Addr
  pub user_agent : Text

pub data SpecError : Type 0 where
  target_required : SpecError
  unknown_transport : ℕ → SpecError

pub data Checked : Type 0 where
  ok : Spec → Checked
  err : SpecError → Checked

-- What is left to its default, once the target and the transport are checked.
unfoldable pub with_defaults : Spec → Spec
unfolding default_port
with_defaults s = record s {
  port = if s.port == 0 then default_port s.transport else s.port;
  interval = if leb_ℤ s.interval (pos 0) then pos second else s.interval;
  timeout = if leb_ℤ s.timeout (pos 0) then pos (5 * second) else s.timeout;
  user_agent = if is_blank s.user_agent then codes "prober" else s.user_agent;
}

abbrev pub check_transport : Spec → Checked
check_transport s =
    if s.transport == 0
    then ok (with_defaults (record s { transport = udp }))
    else if ltb s.transport 5
    then ok (with_defaults s)
    else err (unknown_transport s.transport)

unfoldable pub normalize : Spec → Checked
unfolding with_defaults
normalize s =
    if not (is_valid s.target)
    then err target_required
    else check_transport (record s { target = unmap s.target })

abbrev pub transport_of : SipTransport → ℕ
transport_of sip_udp = udp
transport_of sip_tcp = tcp
transport_of sip_tls = tls
transport_of sip_wss = wss

abbrev pub millis : ℕ → ℤ
millis ms = if ltb 0 ms then pos (ms * 1_000_000) else pos 0

abbrev pub parsed_or_zero : Option Addr → Addr
parsed_or_zero none = zero_addr
parsed_or_zero (some a) = a

-- `parse_addr` is `netip.ParseAddr`, which gives `none` for an error.
unfoldable pub spec_from_proto : (Text → Option Addr) → SipOptionsSpec → Addr → Spec
spec_from_proto parse_addr t resolved = record {
  target = resolved;
  port = t.port % 65536;
  transport = transport_of t.transport;
  cycles = t.cycles;
  interval = millis t.interval_ms;
  timeout = millis t.timeout_ms;
  source = if is_blank t.source then zero_addr else parsed_or_zero (parse_addr t.source);
  user_agent = t.user_agent;
}

-- What `startSip` runs a probe with. `dial_source` is the address that the kernel would send from.
unfoldable pub started_with :
    (Text → Option Addr) → (Addr → ℕ → Addr) → Text → SipOptionsSpec → Addr → Spec
unfolding spec_from_proto
started_with parse_addr dial_source version t resolved =
    let es = spec_from_proto parse_addr t resolved in
    record es {
      user_agent = if is_blank es.user_agent then codes "prober/" ++ version else es.user_agent;
      source = if not (is_valid es.source) then dial_source resolved es.port else es.source;
    }
