-- ===== src/Api.antt =====
-- The messages of the generated API (api/gen/prober/v1) that internal/agent writes and internal/backend
-- reads: their fields, for the kinds of event whose content the code looks at. Unsigned 32-bit fields
-- are numbers below 2 ^ 32 where the code that fills them wraps them.
use prober.Prelude.{ℕ, Bool, List, Option}
use prober.Prelude.Maps.{Text}
use prober.Trace.Stats.{Float64}

pub data Protocol : Type 0 where
  protocol_unspecified protocol_icmp protocol_udp protocol_tcp : Protocol

pub data Family : Type 0 where
  family_unspecified family_ipv4 family_ipv6 : Family

pub record HopAddress : Type 0 where
  pub ip : Text
  pub name : Text
  pub count : ℕ

pub record Hop : Type 0 where
  pub ttl : ℕ
  pub addresses : List HopAddress
  pub sample_us : Option ℕ
  pub sent : ℕ
  pub received : ℕ
  pub loss_pct : Float64
  pub last_us : ℕ
  pub best_us : ℕ
  pub avg_us : ℕ
  pub worst_us : ℕ
  pub stdev_us : ℕ
  pub jitter_us : ℕ

pub record Cycle : Type 0 where
  pub number : ℕ
  pub reached_at : ℕ
  pub hops : List Hop

pub record SipResult : Type 0 where
  pub status_code : ℕ
  pub reason : Text
  pub responded : Bool
  pub rtt_us : Option ℕ

pub data ErrorCode : Type 0 where
  code_unspecified code_resolve code_limit code_engine : ErrorCode

pub record Started : Type 0 where
  pub target : Text
  pub resolved : Text
  pub source : Text
  pub protocol : Protocol
  pub family : Family

-- The `oneof` of a job event, and the time that the event carries, if any.
pub data Event : Type 0 where
  started : Option ℕ → Started → Event
  cycle : Cycle → Event
  sip_result : SipResult → Event
  dns_result : Event
  finished : Bool → Event
  error : ErrorCode → Text → Event
