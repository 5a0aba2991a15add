-- ===== src/Trace/Spec/Bounds.antt =====
-- What internal/trace/spec.go's `Normalize` guarantees of the spec that it returns.
use prober.Prelude.{◌≡◌, refl, subst, ◌⊎◌, not, ◌≢◌, Bool, true, false, arith}
use prober.Prelude.Int.{ℤ, pos, ◌≤ℤ◌}
use prober.Netip.{is_valid, is4, unmap, unmap-unmap, is_valid-unmap}
use prober.Trace.Spec.{
  Spec, Checked, SpecError, target_required, reject_if, ◌>>◌, ok, err, ◌>>=◌, icmp, udp, tcp, mtr,
  ping, check_source, check_protocol, check_mode, default_port, default_pace, check_ttls,
  check_packet, normalize, or_default, default_cycles, default_interval, default_probe_timeout,
}

pub record IsEffective (s : Spec) : Type 0 where
  pub has_target : is_valid s.target ≡ true
  pub unmapped : unmap s.target ≡ s.target
  pub family : (is_valid s.source ≡ false) ⊎ (is4 s.source ≡ is4 s.target)
  pub unmapped_source : (is_valid s.source ≡ false) ⊎ (unmap s.source ≡ s.source)
  pub known_protocol : (s.protocol ≡ icmp) ⊎ (s.protocol ≡ udp) ⊎ (s.protocol ≡ tcp)
  pub known_mode : (s.mode ≡ mtr) ⊎ (s.mode ≡ ping)
  pub has_port : (s.protocol ≡ icmp) ⊎ (s.port ≢ 0)
  pub cycles_pos : pos 1 ≤ℤ s.cycles
  pub interval_pos : pos 1 ≤ℤ s.interval
  pub first_ttl_pos : pos 1 ≤ℤ s.first_ttl
  pub ttl_order : s.first_ttl ≤ℤ s.max_ttl
  pub max_ttl_capped : s.max_ttl ≤ℤ pos 255
  pub ping_one_ttl : s.mode ≡ ping → s.first_ttl ≡ s.max_ttl
  pub packet_pos : pos 1 ≤ℤ s.packet_size
  pub packet_capped : s.packet_size ≤ℤ pos 1400
  pub dscp_nonneg : pos 0 ≤ℤ s.dscp
  pub dscp_capped : s.dscp ≤ℤ pos 63
  pub timeout_pos : pos 1 ≤ℤ s.probe_timeout

-- What a check returns, where it returns at all, satisfies `P`.
abbrev Ensures {ℓ} : {A : Type ℓ} → (A → Type 0) → Checked A → Type 0
Ensures P (ok a) = P a
Ensures P (err e) = Unit {0}

>>=-Ensures {ℓ κ} :
    {A : Type ℓ} {B : Type κ} (P : A → Type 0) (Q : B → Type 0) (m : Checked A) (f : A → Checked B)
    → Ensures P m
    → ((a : A) → P a → Ensures Q (f a))
    → Ensures Q (m >>= f)
>>=-Ensures P Q (ok a) f h k = k a h
>>=-Ensures P Q (err e) f h k = tt

reject_if-Ensures {ℓ} :
    {B : Type ℓ} (Q : B → Type 0) (t : Bool) (e : SpecError) (m : Checked B)
    → (t ≡ false → Ensures Q m)
    → Ensures Q (reject_if t e >> m)
reject_if-Ensures Q true e m h = tt
reject_if-Ensures Q false e m h = h refl

Ensures_ok {ℓ} :
    {A : Type ℓ} {a : A} (P : A → Type 0) (m : Checked A) → Ensures P m → m ≡ ok a → P a
Ensures_ok {a = a} P m h e = subst (Ensures P) e h

-- What each stage has established, the stages in the order of the code.
record AfterSource (s : Spec) : Type 0 where
  has_target : is_valid s.target ≡ true
  unmapped : unmap s.target ≡ s.target
  family : (is_valid s.source ≡ false) ⊎ (is4 s.source ≡ is4 s.target)
  unmapped_source : (is_valid s.source ≡ false) ⊎ (unmap s.source ≡ s.source)

check_source-Ensures :
    (s : Spec)
    → is_valid s.target ≡ true
    → unmap s.target ≡ s.target
    → Ensures AfterSource (check_source s)
unfolding check_source
check_source-Ensures s v u = ground (arith, unmap-unmap s.source)

abbrev AfterProtocol : Spec → Spec → Type 0
AfterProtocol s t =
    (t ≡ record s { protocol = t.protocol })
    × ((t.protocol ≡ icmp) ⊎ (t.protocol ≡ udp) ⊎ (t.protocol ≡ tcp))

check_protocol-Ensures : (s : Spec) → Ensures (AfterProtocol s) (check_protocol s)
unfolding check_protocol
check_protocol-Ensures s = ground arith

abbrev AfterMode : Spec → Spec → Type 0
AfterMode s t = (t ≡ record s { mode = t.mode }) × ((t.mode ≡ mtr) ⊎ (t.mode ≡ ping))

check_mode-Ensures : (s : Spec) → Ensures (AfterMode s) (check_mode s)
unfolding check_mode
check_mode-Ensures s = ground arith

default_port_lem :
    (s : Spec)
    → (default_port s ≡ record s { port = (default_port s).port })
      × ((s.protocol ≡ udp) ⊎ (s.protocol ≡ tcp) → (default_port s).port ≢ 0)
unfolding default_port
default_port_lem s = (ground arith, ground arith)

abbrev AfterTtls : Spec → Spec → Type 0
AfterTtls s t =
    (t ≡ record s { max_ttl = t.max_ttl; first_ttl = t.first_ttl })
    × (pos 1 ≤ℤ t.first_ttl)
    × (t.first_ttl ≤ℤ t.max_ttl)
    × (t.max_ttl ≤ℤ pos 255)
    × (s.mode ≡ ping → t.first_ttl ≡ t.max_ttl)

check_ttls-Ensures : (s : Spec) → Ensures (AfterTtls s) (check_ttls s)
unfolding check_ttls
check_ttls-Ensures s = ground arith

abbrev AfterPacket : Spec → Spec → Type 0
AfterPacket s t =
    (t ≡ record s { packet_size = t.packet_size })
    × (pos 1 ≤ℤ t.packet_size)
    × (t.packet_size ≤ℤ pos 1400)
    × (pos 0 ≤ℤ s.dscp)
    × (s.dscp ≤ℤ pos 63)

check_packet-Ensures : (s : Spec) → Ensures (AfterPacket s) (check_packet s)
unfolding check_packet
check_packet-Ensures s = ground arith

or_default_pos : (x d : ℤ) → pos 1 ≤ℤ d → pos 1 ≤ℤ or_default x d
or_default_pos x d h = ground arith

-- The stages put together: `s1` to `s5` are the specs between them.
assembled :
    (s1 s2 s3 s4 s5 : Spec)
    → AfterSource s1
    → AfterProtocol s1 s2
    → AfterMode s2 s3
    → AfterTtls (default_pace (default_port s3)) s4
    → AfterPacket s4 s5
    → IsEffective (record s5 { probe_timeout = or_default s5.probe_timeout default_probe_timeout })
unfolding default_pace
assembled s1 s2 s3 s4 s5 a b c d e =
    let (p, port) = default_port_lem s3 in
    record {
      has_target = ground arith;
      unmapped = ground arith;
      family = ground arith;
      unmapped_source = ground arith;
      known_protocol = ground arith;
      known_mode = ground arith;
      has_port = ground arith;
      cycles_pos = ground (arith, or_default_pos (default_port s3).cycles default_cycles);
      interval_pos = ground (arith, or_default_pos (default_port s3).interval default_interval);
      first_ttl_pos = ground arith;
      ttl_order = ground arith;
      max_ttl_capped = ground arith;
      ping_one_ttl = ground arith;
      packet_pos = ground arith;
      packet_capped = ground arith;
      dscp_nonneg = ground arith;
      dscp_capped = ground arith;
      timeout_pos = or_default_pos s5.probe_timeout default_probe_timeout (omega arith);
    }

normalize-Ensures : (s : Spec) → Ensures IsEffective (normalize s)
unfolding normalize
normalize-Ensures s = reject_if-Ensures IsEffective (not (is_valid s.target)) target_required _ λ v.
    >>=-Ensures AfterSource IsEffective (check_source (record s { target = unmap s.target })) _
      (check_source-Ensures _ (ground (arith, is_valid-unmap s.target)) (unmap-unmap s.target))
      λ s1 a.
        >>=-Ensures (AfterProtocol s1) IsEffective (check_protocol s1) _ (check_protocol-Ensures s1)
          λ s2 b.
            >>=-Ensures (AfterMode s2) IsEffective (check_mode s2) _ (check_mode-Ensures s2) λ s3 c.
              >>=-Ensures (AfterTtls (default_pace (default_port s3))) IsEffective
                (check_ttls (default_pace (default_port s3))) _ (check_ttls-Ensures _)
                λ s4 d.
                  >>=-Ensures (AfterPacket s4) IsEffective (check_packet s4) _
                    (check_packet-Ensures s4) λ s5 e. assembled s1 s2 s3 s4 s5 a b c d e

-- Whatever spec `Normalize` accepts comes back with every field in the range that the engine relies
-- on: a valid unmapped target, a source of its family, a known protocol and mode, a port for UDP
-- and TCP, TTLs with 1 ≤ first ≤ max ≤ 255 (equal in ping mode), positive cycles, interval and probe
-- timeout, a packet size from 1 to 1400 and a DSCP from 0 to 63.
pub normalize-IsEffective : (s t : Spec) → normalize s ≡ ok t → IsEffective t
normalize-IsEffective s t h = Ensures_ok IsEffective (normalize s) (normalize-Ensures s) h

module _ (s : Spec) (v : IsEffective s) where
  check_source_id : check_source s ≡ ok s
  unfolding check_source
  check_source_id = ground arith

  check_protocol_id : check_protocol s ≡ ok s
  unfolding check_protocol
  check_protocol_id = ground arith

  check_mode_id : check_mode s ≡ ok s
  unfolding check_mode
  check_mode_id = ground arith

  default_port_id : default_port s ≡ s
  unfolding default_port
  default_port_id = ground arith

  default_pace_id : default_pace s ≡ s
  unfolding default_pace
  default_pace_id = ground arith

  timeout_id : or_default s.probe_timeout default_probe_timeout ≡ s.probe_timeout
  timeout_id = ground arith

  target_id : record s { target = unmap s.target } ≡ s
  target_id = ground arith

  check_ttls_id : check_ttls s ≡ ok s
  unfolding check_ttls
  check_ttls_id = ground arith

  check_packet_id : check_packet s ≡ ok s
  unfolding check_packet
  check_packet_id = ground arith

  -- An effective spec is its own normal form.
  pub normalize_id : normalize s ≡ ok s
  unfolding normalize
  normalize_id = rw (
    v.has_target, target_id, check_source_id, check_protocol_id, check_mode_id, default_port_id,
    default_pace_id, check_ttls_id, check_packet_id, timeout_id,
  )

-- Normalizing an accepted spec again gives the same spec.
pub normalize-normalize : (s t : Spec) → normalize s ≡ ok t → normalize t ≡ ok t
normalize-normalize s t h = normalize_id t (normalize-IsEffective s t h)
