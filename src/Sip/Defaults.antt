-- ===== src/Sip/Defaults.antt =====
-- What a configured SIP monitor does in the end: from internal/backend/monitor.go by internal/agent/sipconvert.go to
-- internal/sip/sip.go.
use prober.Prelude.{
  ℕ, ◌+◌, ◌*◌, ◌%◌, ◌++◌, Option, ◌≡◌, refl, ap, subst, ◌∙◌, Bool, true, false, not, ltb, ◌==◌,
  if◌then◌else◌, arith,
}
use prober.Prelude.Int.{ℤ, pos, leb_ℤ}
use prober.Prelude.Maps.{Text, codes, text_eq, ◌=?◌}
use prober.Netip.{Addr, is_valid, unmap, unmap-unmap, is_valid-unmap}
use prober.Backend.Config.{SipParams, is_blank}
use prober.Backend.Registry.{
  SipTransport, sip_udp, sip_tcp, sip_tls, sip_wss, sip_spec_of, sip_transport_of,
}
use prober.Sip.{
  second, udp, tcp, tls, wss, Spec, Checked, ok, err, target_required, unknown_transport,
  with_defaults, check_transport, normalize, transport_of, millis, started_with, default_port,
}

abbrev port_or_default : ℕ → ℕ → ℕ
port_or_default port transport = if port == 0 then default_port transport else port

abbrev millis_or_default : ℕ → ℕ → ℤ
millis_or_default ms d = if ltb 0 ms then pos (ms * 1_000_000) else pos d

-- What a probe of these settings runs with.
abbrev effective_at : ℕ → ℕ → Addr → Text → SipParams → Addr → Spec
effective_at transport port source agent p resolved = record {
  target = unmap resolved;
  port = port;
  transport = transport;
  cycles = p.cycles;
  interval = millis_or_default p.interval_ms second;
  timeout = millis_or_default p.timeout_ms (5 * second);
  source = source;
  user_agent = agent;
}

abbrev effective_over : ℕ → Addr → Text → SipParams → Addr → Spec
effective_over transport source agent p =
    effective_at transport (port_or_default (p.port % 65536) transport) source agent p

-- The transports by name, each with the port that it has when none is given.
abbrev pub known_as : Text → ℕ × ℕ
known_as name =
    if name =? codes "tcp"
    then (tcp, 5060)
    else if name =? codes "tls"
    then (tls, 5061)
    else if name =? codes "wss"
    then (wss, 443)
    else (udp, 5060)

abbrev pub port_of : ℕ → ℕ → ℕ
port_of port usual = if port == 0 then usual else port

-- What a configured probe has to run with, on an agent of this version, from the source that the kernel picks.
abbrev pub effective : (Addr → ℕ → Addr) → Text → SipParams → Addr → Spec
effective dial_source version p resolved =
    effective_at (known_as p.transport).0 (port_of (p.port % 65536) (known_as p.transport).1)
      (dial_source resolved (p.port % 65536)) (codes "prober/" ++ version) p resolved

-- The transport of a name, and its port.
transport-known_as :
    (name : Text)
    → (transport_of (sip_transport_of name) ≡ (known_as name).0)
      × (default_port (known_as name).0 ≡ (known_as name).1)
unfolding sip_transport_of default_port
transport-known_as name = by_name (name =? codes "tcp") (name =? codes "tls") (name =? codes "wss")
  where
    by_name :
        (a b c : Bool)
        → let named : SipTransport =
            if a then sip_tcp else if b then sip_tls else if c then sip_wss else sip_udp in
          let known : ℕ × ℕ =
            if a
            then (tcp, 5060)
            else if b
            then (tls, 5061)
            else if c
            then (wss, 443)
            else (udp, 5060) in
          (transport_of named ≡ known.0) × (default_port known.0 ≡ known.1)
    by_name true b c = (refl, refl)
    by_name false true c = (refl, refl)
    by_name false false true = (refl, refl)
    by_name false false false = (refl, refl)

effective-over :
    (dial_source : Addr → ℕ → Addr) (version : Text) (p : SipParams) (resolved : Addr)
    → effective_over
        (transport_of (sip_transport_of p.transport))
        (dial_source resolved (p.port % 65536))
        (codes "prober/" ++ version)
        p
        resolved
      ≡ effective dial_source version p resolved
effective-over dial_source version p resolved =
    let (named, usual) = transport-known_as p.transport in
    ap (λ (t : ℕ). effective_over t source agent p resolved) named
    ∙ ap
        (λ (n : ℕ).
          effective_at (known_as p.transport).0 (port_of (p.port % 65536) n) source agent p
            resolved)
        usual
  where
    source : Addr
    source = dial_source resolved (p.port % 65536)

    agent : Text
    agent = codes "prober/" ++ version

millis_or :
    (ms d : ℕ) → (if leb_ℤ (millis ms) (pos 0) then pos d else millis ms) ≡ millis_or_default ms d
millis_or ms d = ground arith

millis_again :
    (ms d : ℕ)
    → (if leb_ℤ (millis_or_default ms (d + 1)) (pos 0)
        then pos (d + 1)
        else millis_or_default ms (d + 1))
      ≡ millis_or_default ms (d + 1)
millis_again ms d = ground arith

port_again :
    (port transport : ℕ)
    → port_or_default (port_or_default port transport) transport ≡ port_or_default port transport
unfolding default_port
port_again port transport = ground arith

known_transport :
    (t : SipTransport) → (transport_of t == 0 ≡ false) × (ltb (transport_of t) 5 ≡ true)
known_transport sip_udp = (refl, refl)
known_transport sip_tcp = (refl, refl)
known_transport sip_tls = (refl, refl)
known_transport sip_wss = (refl, refl)

-- A spec with a valid target and a known transport.
normalize_known :
    (s : Spec)
    → is_valid s.target ≡ true
    → s.transport == 0 ≡ false
    → ltb s.transport 5 ≡ true
    → normalize s ≡ ok (with_defaults (record s { target = unmap s.target }))
unfolding normalize
normalize_known s valid set known =
    ap
      (λ (b : Bool).
        if not b
        then err target_required
        else check_transport (record s { target = unmap s.target }))
      valid
    ∙ (ap
          (λ (b : Bool).
            if b
            then ok (with_defaults (record s { target = unmap s.target; transport = udp }))
            else known_or known_s)
          set
        ∙ ap known_or known)
  where
    known_s : Bool
    known_s = ltb s.transport 5

    known_or : Bool → Checked
    known_or b =
        if b
        then ok (with_defaults (record s { target = unmap s.target }))
        else err (unknown_transport s.transport)

defaults_from_proto :
    (transport : ℕ) (source : Addr) (agent : Text) (p : SipParams) (resolved : Addr)
    → is_blank agent ≡ false
    → with_defaults (record {
      target = unmap resolved;
      port = p.port % 65536;
      transport = transport;
      cycles = p.cycles;
      interval = millis p.interval_ms;
      timeout = millis p.timeout_ms;
      source = source;
      user_agent = agent;
    })
      ≡ effective_over transport source agent p resolved
unfolding with_defaults
defaults_from_proto transport source agent p resolved named =
    ap
      (λ (z : ℤ). record whole {
        interval = z;
        timeout =
            if leb_ℤ (millis p.timeout_ms) (pos 0) then pos (5 * second) else millis p.timeout_ms;
        user_agent = if is_blank agent then codes "prober" else agent;
      })
      (millis_or p.interval_ms second)
    ∙ (ap
          (λ (z : ℤ). record whole {
            timeout = z;
            user_agent = if is_blank agent then codes "prober" else agent;
          })
          (millis_or p.timeout_ms (5 * second))
        ∙ ap (λ (b : Bool). record whole { user_agent = if b then codes "prober" else agent })
            named)
  where
    whole : Spec
    whole = effective_over transport source agent p resolved

defaults_again :
    (transport : ℕ) (source : Addr) (agent : Text) (p : SipParams) (resolved : Addr)
    → is_blank agent ≡ false
    → with_defaults (record (effective_over transport source agent p resolved) {
      target = unmap (unmap resolved);
    })
      ≡ effective_over transport source agent p resolved
unfolding with_defaults
defaults_again transport source agent p resolved named =
    ap (λ (a : Addr). with_defaults (record whole { target = a })) (unmap-unmap resolved)
    ∙ (ap
          (λ (n : ℕ). record whole {
            port = n;
            interval = again p.interval_ms 999_999_999;
            timeout = again p.timeout_ms 4_999_999_999;
            user_agent = kept (is_blank agent);
          })
          (port_again (p.port % 65536) transport)
        ∙ (ap
              (λ (z : ℤ). record whole {
                interval = z;
                timeout = again p.timeout_ms 4_999_999_999;
                user_agent = kept (is_blank agent);
              })
              (millis_again p.interval_ms 999_999_999)
            ∙ (ap (λ (z : ℤ). record whole { timeout = z; user_agent = kept (is_blank agent) })
                  (millis_again p.timeout_ms 4_999_999_999)
                ∙ ap (λ (b : Bool). record whole { user_agent = kept b }) named)))
  where
    whole : Spec
    whole = effective_over transport source agent p resolved

    kept : Bool → Text
    kept b = if b then codes "prober" else agent

    again : ℕ → ℕ → ℤ
    again ms d =
        if leb_ℤ (millis_or_default ms (d + 1)) (pos 0)
        then pos (d + 1)
        else millis_or_default ms (d + 1)

-- A SIP monitor whose target resolves to a valid address is probed at that address, unmapped, over the transport
-- that its text names, UDP if it names none; at its port modulo 65536, or if that is 0 at port 5061 for TLS, 443 for
-- WSS and 5060 otherwise; with its interval and timeout in milliseconds, or one and five seconds where they are
-- 0; from the source that the kernel picks, and under the agent's name and version. Normalizing that again changes
-- nothing.
pub normalize-started_with :
    (parse_addr : Text → Option Addr) (dial_source : Addr → ℕ → Addr) (version target : Text)
    (p : SipParams) (resolved : Addr)
    → is_valid resolved ≡ true
    → (normalize (started_with parse_addr dial_source version (sip_spec_of target p) resolved)
        ≡ ok (effective dial_source version p resolved))
      × (normalize (effective dial_source version p resolved)
          ≡ ok (effective dial_source version p resolved))
unfolding started_with sip_spec_of is_valid
normalize-started_with parse_addr dial_source version target p resolved valid =
    let (set, known) = known_transport (sip_transport_of p.transport) in
    let e = effective-over dial_source version p resolved in
    (
      normalize_known (started_with parse_addr dial_source version (sip_spec_of target p) resolved)
            valid set known
          ∙ ap ok (defaults_from_proto transport source agent p resolved refl ∙ e),
      subst (λ (s : Spec). normalize s ≡ ok s) e
          (normalize_known (effective_over transport source agent p resolved)
              (is_valid-unmap resolved ∙ valid) set known
            ∙ ap ok (defaults_again transport source agent p resolved refl)),
    )
  where
    transport : ℕ
    transport = transport_of (sip_transport_of p.transport)

    source : Addr
    source = dial_source resolved (p.port % 65536)

    agent : Text
    agent = codes "prober/" ++ version
