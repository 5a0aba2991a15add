-- ===== src/Trace/Parse/Quotes.antt =====
-- The datagrams that ICMP errors quote, and the keys that internal/trace/parse.go reads out of them.
use prober.Prelude.{
  ℕ, zero, suc, ◌+◌, ◌*◌, ◌/◌, ◌%◌, ◌≡◌, ◌≤◌, ◌<◌, refl, ap, subst, ◌∙◌, Bool, true, false, List,
  [], ◌∷◌, ◌++◌, Option, none, some, length, length-append, drop, get_or, ltb, if◌then◌else◌, arith,
}
use prober.Trace.Spec.{icmp, udp, tcp}
use prober.Trace.Probe.{ProbeKey}
use prober.Trace.Parse.{
  Ipv4Header, proto_icmp, proto_udp, proto_tcp, proto_icmp6, header_len6, echo_request, key_of,
  key_after, inner_key,
}

-- The transport header of a probe of a key, by its protocol number: an echo request with its identifier and
-- sequence number, or the source port of a UDP or TCP probe. The numbers are big-endian, and at least eight
-- bytes are there.
pub data Quotes : Bool → ProbeKey → ℕ → List ℕ → Type 0 where
  quotes_echo :
      (v6 : Bool) (id seq code a b : ℕ) (rest : List ℕ)
      → Quotes v6
          (record { proto = icmp; is_v6 = v6; id = id; seq = seq })
          (if v6 then proto_icmp6 else proto_icmp)
          (echo_request v6 ∷ code ∷ a ∷ b ∷ id / 256 ∷ id % 256 ∷ seq / 256 ∷ seq % 256 ∷ rest)
  quotes_udp :
      (v6 : Bool) (port a b c d e f : ℕ) (rest : List ℕ)
      → Quotes v6
          (record { proto = udp; is_v6 = v6; id = port; seq = 0 })
          proto_udp
          (port / 256 ∷ port % 256 ∷ a ∷ b ∷ c ∷ d ∷ e ∷ f ∷ rest)
  quotes_tcp :
      (v6 : Bool) (port a b c d e f : ℕ) (rest : List ℕ)
      → Quotes v6
          (record { proto = tcp; is_v6 = v6; id = port; seq = 0 })
          proto_tcp
          (port / 256 ∷ port % 256 ∷ a ∷ b ∷ c ∷ d ∷ e ∷ f ∷ rest)

-- The quoted datagram: an IPv6 header of 40 bytes that names the protocol in its seventh, or an IPv4 header that
-- parses as one of its length and protocol, before the transport header.
pub data IsDatagram (parse_header : List ℕ → Option Ipv4Header) (proto : ℕ) (tp : List ℕ)
    : Bool → List ℕ → Type 0 where
  over_ipv6 :
      (header : List ℕ)
      → length header ≡ header_len6
      → get_or header 6 0 ≡ proto
      → IsDatagram parse_header proto tp true (header ++ tp)
  over_ipv4 :
      (header : List ℕ)
      → parse_header (header ++ tp) ≡ some (record { len = length header; protocol = proto })
      → IsDatagram parse_header proto tp false (header ++ tp)

two_bytes : (n : ℕ) → n / 256 * 256 + n % 256 ≡ n
two_bytes n = omega arith

key_of-Quotes :
    {v6 : Bool} {k : ProbeKey} {proto : ℕ} {tp : List ℕ}
    → Quotes v6 k proto tp
    → key_of v6 proto tp ≡ some k
unfolding key_of
key_of-Quotes (quotes_echo true id seq code a b rest) = rw (two_bytes id, two_bytes seq)
key_of-Quotes (quotes_echo false id seq code a b rest) = rw (two_bytes id, two_bytes seq)
key_of-Quotes (quotes_udp v6 port a b c d e f rest) = rw (two_bytes port)
key_of-Quotes (quotes_tcp v6 port a b c d e f rest) = rw (two_bytes port)

Quotes-length :
    {v6 : Bool} {k : ProbeKey} {proto : ℕ} {tp : List ℕ} → Quotes v6 k proto tp → 8 ≤ length tp
Quotes-length (quotes_echo v6 id seq code a b rest) = omega arith
Quotes-length (quotes_udp v6 port a b c d e f rest) = omega arith
Quotes-length (quotes_tcp v6 port a b c d e f rest) = omega arith

drop-append : (xs ys : List ℕ) → drop (length xs) (xs ++ ys) ≡ ys
drop-append [] ys = refl
drop-append (x ∷ xs) ys = drop-append xs ys

get_or-append : (xs ys : List ℕ) (i d : ℕ) → i < length xs → get_or (xs ++ ys) i d ≡ get_or xs i d
get_or-append [] ys i d h = absurd (omega (arith, h))
get_or-append (x ∷ xs) ys zero d h = refl
get_or-append (x ∷ xs) ys (suc i) d h = get_or-append xs ys i d (omega (arith, h))

not_shorter :
    (header tp : List ℕ) → 8 ≤ length tp → ltb (length (header ++ tp)) (length header + 8) ≡ false
not_shorter header tp h = ground (arith, length-append header tp, h)

-- The key of a probe is read out of every datagram that quotes the probe's transport header after an IP header.
pub inner_key-Quotes :
    {parse_header : List ℕ → Option Ipv4Header} {v6 : Bool} {k : ProbeKey} {proto : ℕ}
    {tp data_ : List ℕ}
    → Quotes v6 k proto tp
    → IsDatagram parse_header proto tp v6 data_
    → inner_key parse_header data_ v6 ≡ some k
unfolding inner_key
inner_key-Quotes {proto = proto} {tp = tp} q (over_ipv6 header len named) =
    let shorter : ltb (length (header ++ tp)) (header_len6 + 8) ≡ false =
      subst (λ (n : ℕ). ltb (length (header ++ tp)) (n + 8) ≡ false) len
        (not_shorter header tp (Quotes-length q)) in
    let rest : drop header_len6 (header ++ tp) ≡ tp =
      subst (λ (n : ℕ). drop n (header ++ tp) ≡ tp) len (drop-append header tp) in
    let next = get_or-append header tp 6 0 (omega (arith, len)) ∙ named in
    ap
      (λ (b : Bool).
        if b
        then none
        else key_of true (get_or (header ++ tp) 6 0) (drop header_len6 (header ++ tp)))
      shorter
    ∙ (ap (λ (n : ℕ). key_of true n (drop header_len6 (header ++ tp))) next
        ∙ (ap (key_of true proto) rest ∙ key_of-Quotes q))
inner_key-Quotes {proto = proto} {tp = tp} q (over_ipv4 header parsed) =
    ap (key_after (header ++ tp)) parsed
    ∙ (ap
          (λ (b : Bool).
            if b then none else key_of false proto (drop (length header) (header ++ tp)))
          (not_shorter header tp (Quotes-length q))
        ∙ (ap (key_of false proto) (drop-append header tp) ∙ key_of-Quotes q))
