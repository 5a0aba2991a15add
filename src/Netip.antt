-- ===== src/Netip.antt =====
-- The part of Go's net/netip that internal/trace and internal/agent use. An address is the zero
-- `netip.Addr`, an IPv4 address, or an IPv6 address with its zone; bit patterns are big-endian
-- numbers of 32 and 128 bits.
use prober.Prelude.{
  ℕ, ◌/◌, ◌%◌, ◌^◌, Bool, true, false, ◌&&◌, String, ◌==◌, if◌then◌else◌, ◌≡◌, ◌↔◌, arith,
}
use text.Mathlib.Text.{◌==◌ as str_eq}
use text.Mathlib.TextEquality.{eq_iff}
use prober.Prelude.Maps.{Eq}

pub data Addr : Type 0 where
  zero_addr : Addr
  v4 : ℕ → Addr
  v6 : ℕ → String → Addr

unfoldable pub is_valid : Addr → Bool
is_valid zero_addr = false
is_valid _ = true

unfoldable pub is4 : Addr → Bool
is4 (v4 _) = true
is4 _ = false

unfoldable pub is6 : Addr → Bool
is6 (v6 _ _) = true
is6 _ = false

-- An address of ::ffff:0:0/96.
unfoldable pub is4_in6 : Addr → Bool
is4_in6 (v6 a _) = a / 2 ^ 32 == 0xffff
is4_in6 _ = false

-- A mapped address becomes the IPv4 address that it carries; its zone is dropped.
unfoldable pub unmap : Addr → Addr
unmap zero_addr = zero_addr
unmap (v4 a) = v4 a
unmap (v6 a z) = if a / 2 ^ 32 == 0xffff then v4 (a % 2 ^ 32) else v6 a z

-- `WithZone("")`: only an IPv6 address has a zone.
unfoldable pub without_zone : Addr → Addr
without_zone zero_addr = zero_addr
without_zone (v4 a) = v4 a
without_zone (v6 a _) = v6 a ""

unfoldable pub zone : Addr → String
zone (v6 _ z) = z
zone _ = ""

abbrev pub addr_beq : Addr → Addr → Bool
addr_beq zero_addr zero_addr = true
addr_beq (v4 a) (v4 b) = a == b
addr_beq (v6 a z) (v6 b w) = a == b && str_eq z w
addr_beq _ _ = false

pub addr_beq_iff : (a b : Addr) → (addr_beq a b ≡ true) ↔ (a ≡ b)
addr_beq_iff zero_addr b = ground arith
addr_beq_iff (v4 a) b = ground arith
addr_beq_iff (v6 a z) zero_addr = ground arith
addr_beq_iff (v6 a z) (v4 b) = ground arith
addr_beq_iff (v6 a z) (v6 b w) = ground (arith, eq_iff z w)

instance abbrev pub addr_eq : Eq Addr
addr_eq = record { beq = addr_beq; beq_iff = addr_beq_iff }

pub unmap-is4_in6 : (a : Addr) → is4_in6 (unmap a) ≡ false
unfolding is4_in6 unmap
unmap-is4_in6 zero_addr = ground arith
unmap-is4_in6 (v4 a) = ground arith
unmap-is4_in6 (v6 a z) = ground arith

pub unmap-unmap : (a : Addr) → unmap (unmap a) ≡ unmap a
unfolding unmap
unmap-unmap zero_addr = ground arith
unmap-unmap (v4 a) = ground arith
unmap-unmap (v6 a z) = ground arith

pub is_valid-unmap : (a : Addr) → is_valid (unmap a) ≡ is_valid a
unfolding is_valid unmap
is_valid-unmap zero_addr = ground arith
is_valid-unmap (v4 a) = ground arith
is_valid-unmap (v6 a z) = ground arith
