-- ===== src/Sip/Tests.antt =====
-- A SIP monitor over TLS, with its port and its times left to their defaults.
use prober.Prelude.{ℕ, ◌≡◌, refl, [], Option, none}
use prober.Prelude.Maps.{Text, codes}
use prober.Netip.{Addr, v4, is_valid}
use prober.Backend.Config.{SipParams}
use prober.Backend.Registry.{sip_spec_of}
use prober.Sip.{ok, normalize, started_with}
use prober.Sip.Defaults.{effective, normalize-started_with}

abbrev params : SipParams
params = record {
  transport = codes "tls";
  family = [];
  port = 65536;
  cycles = 1;
  interval_ms = 0;
  timeout_ms = 0;
}

-- The kernel would send from 192.0.2.9.
abbrev local_addr : Addr → ℕ → Addr
local_addr target port = v4 3221225993

abbrev no_addr : Text → Option Addr
no_addr text = none

-- The port wraps to 0, and the port of TLS is taken.
wrapped : (effective local_addr (codes "1.2") params (v4 3221225985)).port ≡ 5061
wrapped = refl

normalize-started_with_example :
    let s = effective local_addr (codes "1.2") params (v4 3221225985) in
    (normalize (
        started_with no_addr local_addr
          (codes "1.2")
          (sip_spec_of (codes "sip.example") params)
          (v4 3221225985))
      ≡ ok s)
    × (normalize s ≡ ok s)
unfolding is_valid
normalize-started_with_example =
    normalize-started_with no_addr local_addr (codes "1.2") (codes "sip.example") params
      (v4 3221225985) refl
