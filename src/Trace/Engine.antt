-- ===== src/Trace/Engine.antt =====
-- internal/trace/engine.go: the table of probes in flight, the identifiers of runs, and what the read loops do with
-- a packet. A session is its number. Each operation holds the engine's lock and is one step.
pub mod Deliveries
mod Tests
use prober.Prelude.{
  ℕ, ◌+◌, ◌%◌, Bool, true, false, ◌&&◌, ◌||◌, List, [], ◌∷◌, ◌++◌, Option, none, some, length, ltb,
  leb, ◌==◌, if◌then◌else◌,
}
use prober.Prelude.Maps.{Map, lookup, insert, delete, nat_eq}
use prober.Trace.Probe.{ProbeKey, key_eq}
use prober.Trace.Parse.{Ipv4Header, IcmpMessage, Answer, parse_reply}

pub record Engine : Type 0 where
  pub probes : Map ProbeKey ℕ
  pub ids : Map ℕ (Unit {0})

unfoldable pub register : ProbeKey → ℕ → Engine → Engine
register k s e = record e { probes = insert k s e.probes }

unfoldable pub unregister : ProbeKey → Engine → Engine
unregister k e = record e { probes = delete k e.probes }

unfoldable pub owner : ProbeKey → Engine → Option ℕ
owner k e = lookup k e.probes

-- `drawing` is a loop that has used up the random numbers given to it.
pub data Alloc : Type 0 where
  no_free_id drawing : Alloc
  allocated : ℕ → Engine → Alloc

abbrev pub is_used : Option (Unit {0}) → Bool
is_used none = false
is_used (some u) = true

unfoldable pub draw : List ℕ → Engine → Alloc
draw [] e = drawing
draw (r ∷ rs) e =
    let later = draw rs e in
    if is_used (lookup (r % 65536) e.ids) || r % 65536 == 0
    then later
    else allocated (r % 65536) (record e { ids = insert (r % 65536) tt e.ids })

unfoldable pub alloc_id : List ℕ → Engine → Alloc
unfolding draw
alloc_id rs e = if leb 60000 (length e.ids) then no_free_id else draw rs e

unfoldable pub free_id : ℕ → Engine → Engine
free_id id e = record e { ids = delete id e.ids }

abbrev pub deliver_to : Option ℕ → Answer → Option (ℕ × Answer)
deliver_to none a = none
deliver_to (some s) a = some (s, a)

abbrev pub delivery : Option Answer → Engine → Option (ℕ × Answer)
delivery none e = none
delivery (some a) e = deliver_to (owner a.key e) a

-- The session that a packet is delivered to, with what it answers.
unfoldable pub read_one :
    (List ℕ → Option Ipv4Header) → Option IcmpMessage → Bool → Engine → Option (ℕ × Answer)
unfolding owner parse_reply
read_one parse_header m v6 e = delivery (parse_reply parse_header m v6) e
