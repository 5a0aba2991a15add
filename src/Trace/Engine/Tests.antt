-- ===== src/Trace/Engine/Tests.antt =====
-- A packet for internal/trace/engine.go: a router says that the time of a UDP probe from port 33440 is exceeded.
use prober.Prelude.{ℕ, ◌/◌, ◌%◌, ◌≡◌, refl, ap, false, List, [], ◌∷◌, ◌++◌, Option, some, arith}
use prober.Prelude.Maps.{lookup, insert, nat_eq}
use prober.Trace.Spec.{udp}
use prober.Trace.Probe.{ProbeKey, from_target, exceeded}
use prober.Trace.Parse.{Ipv4Header, other_type, time_exceeded, dst_unreach}
use prober.Trace.Parse.Quotes.{quotes_udp, over_ipv4}
use prober.Trace.Engine.{Engine, register, alloc_id, read_one}
use prober.Trace.Engine.Deliveries.{
  registers, apply_all, read_one-register, IsFree, alloc_id-IsFree,
}

abbrev empty : Engine
empty = record { probes = []; ids = [] }

abbrev key : ProbeKey
key = record { proto = udp; is_v6 = false; id = 33440; seq = 0 }

abbrev other : ProbeKey
other = record { proto = udp; is_v6 = false; id = 33441; seq = 0 }

-- The first bytes of a header stand for all 20.
abbrev header : List ℕ
header = 69 ∷ 0 ∷ 0 ∷ 28 ∷ []

abbrev parse_header : List ℕ → Option Ipv4Header
parse_header bs = some (record { len = 4; protocol = 17 })

abbrev transport : List ℕ
transport = 33440 / 256 ∷ 33440 % 256 ∷ 130 ∷ 155 ∷ 0 ∷ 8 ∷ 0 ∷ 0 ∷ []

read_one-register_example :
    (read_one parse_header
        (some (record { type = other_type; code = 3; body = time_exceeded (header ++ transport) }))
        false
        (apply_all (registers other 6 ∷ []) (register key 5 empty))
      ≡ some (5, record { key = key; kind = exceeded; code = 3 }))
    × (read_one parse_header
          (some (record { type = other_type; code = 3; body = dst_unreach (header ++ transport) }))
          false
          (apply_all (registers other 6 ∷ []) (register key 5 empty))
        ≡ some (5, record { key = key; kind = from_target; code = 3 }))
read_one-register_example =
    read_one-register 5 3 other_type empty (registers other 6 ∷ [])
      (quotes_udp false 33440 130 155 0 8 0 0 []) (over_ipv4 header refl)
      ((λ e. omega (arith, ap (λ (k : ProbeKey). k.id) e)), tt)

-- 0 is skipped, and so is 5, which is in use.
abbrev busy : Engine
busy = record { probes = []; ids = (5, tt) ∷ [] }

abbrev after : Engine
after = record { probes = []; ids = (5, tt) ∷ (7, tt) ∷ [] }

alloc_id-IsFree_example : IsFree 7 busy × (lookup 7 after.ids ≡ some tt)
unfolding alloc_id lookup insert
alloc_id-IsFree_example = alloc_id-IsFree (0 ∷ 5 ∷ 7 ∷ []) busy after 7 refl
