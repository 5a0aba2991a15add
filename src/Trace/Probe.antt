-- ===== src/Trace/Probe.antt =====
-- internal/trace/engine.go: what identifies a probe in flight, and the replies that the engine's
-- read loops hand to a session.
use prober.Prelude.{ℕ, ◌≡◌, ◌↔◌, Bool, true, false, not, ◌&&◌, ◌==◌, arith}
use prober.Prelude.Maps.{Eq}
use prober.Netip.{Addr}

pub record ProbeKey : Type 0 where
  pub proto : ℕ  -- uint8
  pub is_v6 : Bool
  pub id : ℕ  -- uint16
  pub seq : ℕ  -- uint16

abbrev bool_beq : Bool → Bool → Bool
bool_beq true b = b
bool_beq false b = not b

abbrev pub key_beq : ProbeKey → ProbeKey → Bool
key_beq a b = a.proto == b.proto && (bool_beq a.is_v6 b.is_v6 && (a.id == b.id && a.seq == b.seq))

pub key_beq_iff : (a b : ProbeKey) → (key_beq a b ≡ true) ↔ (a ≡ b)
key_beq_iff a b = ground arith

instance abbrev pub key_eq : Eq ProbeKey
key_eq = record { beq = key_beq; beq_iff = key_beq_iff }

pub data ReplyKind : Type 0 where
  from_target exceeded unreachable : ReplyKind

pub record Reply : Type 0 where
  pub key : ProbeKey
  pub from : Addr
  pub kind : ReplyKind
  pub code : ℕ
  pub at : ℕ
