-- ===== src/Trace/Parse.antt =====
-- internal/trace/parse.go: which probe an ICMP message answers. What golang.org/x/net reads of a message and of
-- an IPv4 header are an `IcmpMessage` and the parameter `parse_header`.
pub mod Quotes
use prober.Prelude.{
  ℕ, ◌+◌, ◌*◌, ◌%◌, Bool, true, false, ◌&&◌, ◌||◌, not, List, [], ◌∷◌, Option, none, some, length,
  drop, get_or, ltb, ◌==◌, if◌then◌else◌,
}
use prober.Trace.Spec.{icmp, udp, tcp}
use prober.Trace.Probe.{ProbeKey, ReplyKind, from_target, exceeded, unreachable}

pub data IcmpType : Type 0 where
  echo_reply4 echo_reply6 other_type : IcmpType

pub data IcmpBody : Type 0 where
  echo : ℕ → ℕ → IcmpBody
  time_exceeded dst_unreach : List ℕ → IcmpBody
  other_body : IcmpBody

pub record IcmpMessage : Type 0 where
  pub type : IcmpType
  pub code : ℕ
  pub body : IcmpBody

pub record Ipv4Header : Type 0 where
  pub len : ℕ
  pub protocol : ℕ

abbrev pub proto_icmp : ℕ
proto_icmp = 1

abbrev pub proto_tcp : ℕ
proto_tcp = 6

abbrev pub proto_udp : ℕ
proto_udp = 17

abbrev pub proto_icmp6 : ℕ
proto_icmp6 = 58

abbrev pub header_len6 : ℕ
header_len6 = 40

-- A big-endian uint16 at an index. The tests before it keep the index in bounds.
abbrev pub uint16_at : List ℕ → ℕ → ℕ
uint16_at bs i = get_or bs i 0 * 256 + get_or bs (i + 1) 0

abbrev pub echo_request : Bool → ℕ
echo_request v6 = if v6 then 128 else 8

-- The identity in the first bytes of the transport header.
unfoldable pub key_of : Bool → ℕ → List ℕ → Option ProbeKey
key_of v6 proto tp =
    if proto == proto_icmp || proto == proto_icmp6
    then if get_or tp 0 0 == echo_request v6
      then some (record { proto = icmp; is_v6 = v6; id = uint16_at tp 4; seq = uint16_at tp 6 })
      else none
    else if proto == proto_udp
    then some (record { proto = udp; is_v6 = v6; id = uint16_at tp 0; seq = 0 })
    else if proto == proto_tcp
    then some (record { proto = tcp; is_v6 = v6; id = uint16_at tp 0; seq = 0 })
    else none

abbrev pub key_after : List ℕ → Option Ipv4Header → Option ProbeKey
key_after data_ none = none
key_after data_ (some h) =
    if ltb (length data_) (h.len + 8) then none else key_of false h.protocol (drop h.len data_)

-- What a message answers: the probe, how, and the code.
pub record Answer : Type 0 where
  pub key : ProbeKey
  pub kind : ReplyKind
  pub code : ℕ

abbrev pub answer_to : ReplyKind → ℕ → Option ProbeKey → Option Answer
answer_to kind code none = none
answer_to kind code (some k) = some (record { key = k; kind = kind; code = code })

abbrev pub is_reply : Bool → IcmpType → Bool
is_reply true echo_reply6 = true
is_reply false echo_reply4 = true
is_reply v6 t = false

abbrev pub is_port_unreachable : Bool → ℕ → Bool
is_port_unreachable v6 code = if v6 then code == 4 else code == 3

abbrev pub answer_unreachable : Bool → ℕ → Option ProbeKey → Option Answer
answer_unreachable v6 code none = none
answer_unreachable v6 code (some k) =
    answer_to (if is_port_unreachable v6 code && k.proto == udp then from_target else unreachable)
      code (some k)

module _ (parse_header : List ℕ → Option Ipv4Header) where
  unfoldable pub inner_key : List ℕ → Bool → Option ProbeKey
  unfolding key_of
  inner_key data_ true =
      if ltb (length data_) (header_len6 + 8)
      then none
      else key_of true (get_or data_ 6 0) (drop header_len6 data_)
  inner_key data_ false = key_after data_ (parse_header data_)

  abbrev pub answer_body : Bool → IcmpType → ℕ → IcmpBody → Option Answer
  answer_body v6 type code (echo id seq) =
      if is_reply v6 type
      then some (record {
        key = record { proto = icmp; is_v6 = v6; id = id % 65536; seq = seq % 65536 };
        kind = from_target;
        code = 0;
      })
      else none
  answer_body v6 type code (time_exceeded data_) = answer_to exceeded code (inner_key data_ v6)
  answer_body v6 type code (dst_unreach data_) = answer_unreachable v6 code (inner_key data_ v6)
  answer_body v6 type code other_body = none

  -- `none` for a message that cannot be parsed.
  unfoldable pub parse_reply : Option IcmpMessage → Bool → Option Answer
  unfolding inner_key
  parse_reply none v6 = none
  parse_reply (some m) v6 = answer_body v6 m.type m.code m.body
