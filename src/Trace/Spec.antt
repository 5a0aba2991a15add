-- ===== src/Trace/Spec.antt =====
-- internal/trace/spec.go: what one trace is to do, its defaults and its validation.
-- Go's `int` and `time.Duration` fields are integers (a duration counts nanoseconds); the enums keep
-- their `uint8` values, since `Normalize` also meets values that name no constant.
pub mod Bounds
use prober.Prelude.{ℕ, ◌+◌, ◌*◌, Bool, true, false, not, ◌&&◌, ◌||◌, ◌==◌, if◌then◌else◌, leb}
use prober.Prelude.Int.{ℤ, pos, negsuc, ltb_ℤ, leb_ℤ, ◌+ℤ◌, ◌-ℤ◌}
use prober.Netip.{Addr, is_valid, is4, unmap}

abbrev pub icmp : ℕ
icmp = 1

abbrev pub udp : ℕ
udp = 2

abbrev pub tcp : ℕ
tcp = 3

abbrev pub mtr : ℕ
mtr = 1

abbrev pub ping : ℕ
ping = 2

pub record Spec : Type 0 where
  pub target : Addr
  pub protocol : ℕ  -- uint8
  pub mode : ℕ  -- uint8
  pub port : ℕ  -- uint16
  pub resolve_names : Bool
  pub cycles : ℤ
  pub interval : ℤ
  pub first_ttl : ℤ
  pub max_ttl : ℤ
  pub packet_size : ℤ
  pub dscp : ℤ
  pub source : Addr
  pub probe_timeout : ℤ

abbrev pub default_cycles : ℤ
default_cycles = pos 300

abbrev pub second : ℕ
second = 1_000_000_000

abbrev pub default_interval : ℤ
default_interval = pos second

abbrev pub default_max_ttl : ℤ
default_max_ttl = pos 30

abbrev pub default_ping_ttl : ℤ
default_ping_ttl = pos 64

abbrev pub default_packet_size : ℤ
default_packet_size = pos 56

abbrev pub default_probe_timeout : ℤ
default_probe_timeout = pos (3 * second)

abbrev pub default_udp_port : ℕ
default_udp_port = 33434

abbrev pub default_tcp_port : ℕ
default_tcp_port = 80

pub data SpecError : Type 0 where
  target_required families_differ : SpecError
  unknown_protocol unknown_mode : ℕ → SpecError
  max_ttl_exceeds packet_size_exceeds dscp_out_of_range : ℤ → SpecError
  first_ttl_exceeds : ℤ → ℤ → SpecError

pub data Checked {ℓ} (A : Type ℓ) : Type ℓ where
  ok : A → Checked A
  err : SpecError → Checked A

infixl 5 ◌>>=◌ ◌>>◌
abbrev pub ◌>>=◌ {ℓ κ} : {A : Type ℓ} {B : Type κ} → Checked A → (A → Checked B) → Checked B
ok a >>= f = f a
err e >>= f = err e

abbrev pub ◌>>◌ {ℓ} : {B : Type ℓ} → Checked (Unit {0}) → Checked B → Checked B
m >> k = m >>= λ _. k

abbrev pub reject_if : Bool → SpecError → Checked (Unit {0})
reject_if true e = err e
reject_if false e = ok tt

-- `if x <= 0 { x = d }`
abbrev pub or_default : ℤ → ℤ → ℤ
or_default x d = if leb_ℤ x (pos 0) then d else x

abbrev same_bool : Bool → Bool → Bool
same_bool true b = b
same_bool false b = not b

unfoldable pub check_source : Spec → Checked Spec
check_source s =
    if is_valid s.source
    then (let t = record s { source = unmap s.source } in
        if same_bool (is4 t.source) (is4 t.target) then ok t else err families_differ)
    else ok s

unfoldable pub check_protocol : Spec → Checked Spec
check_protocol s =
    if s.protocol == 0
    then ok (record s { protocol = icmp })
    else if s.protocol == icmp || s.protocol == udp || s.protocol == tcp
    then ok s
    else err (unknown_protocol s.protocol)

unfoldable pub check_mode : Spec → Checked Spec
check_mode s =
    if s.mode == 0
    then ok (record s { mode = mtr })
    else if s.mode == mtr || s.mode == ping
    then ok s
    else err (unknown_mode s.mode)

unfoldable pub default_port : Spec → Spec
default_port s =
    if s.port == 0
    then (if s.protocol == udp
        then record s { port = default_udp_port }
        else if s.protocol == tcp
        then record s { port = default_tcp_port }
        else s)
    else s

unfoldable pub default_pace : Spec → Spec
default_pace s = record s {
  cycles = or_default s.cycles default_cycles;
  interval = or_default s.interval default_interval;
}

unfoldable pub check_ttls : Spec → Checked Spec
check_ttls s = do
  let max_ttl = or_default s.max_ttl (if s.mode == ping then default_ping_ttl else default_max_ttl)
  reject_if (ltb_ℤ (pos 255) max_ttl) (max_ttl_exceeds max_ttl)
  let first_ttl = if s.mode == ping then max_ttl else or_default s.first_ttl (pos 1)
  reject_if (ltb_ℤ max_ttl first_ttl) (first_ttl_exceeds first_ttl max_ttl)
  ok (record s { max_ttl = max_ttl; first_ttl = first_ttl })

unfoldable pub check_packet : Spec → Checked Spec
check_packet s = do
  let packet_size = or_default s.packet_size default_packet_size
  reject_if (ltb_ℤ (pos 1400) packet_size) (packet_size_exceeds packet_size)
  reject_if (ltb_ℤ s.dscp (pos 0) || ltb_ℤ (pos 63) s.dscp) (dscp_out_of_range s.dscp)
  ok (record s { packet_size = packet_size })

unfoldable pub normalize : Spec → Checked Spec
normalize s = do
  reject_if (not (is_valid s.target)) target_required
  s ← check_source (record s { target = unmap s.target })
  s ← check_protocol s
  s ← check_mode s
  let s = default_port s
  s ← check_ttls (default_pace s)
  s ← check_packet s
  ok (record s { probe_timeout = or_default s.probe_timeout default_probe_timeout })
