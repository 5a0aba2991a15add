-- ===== src/Trace/Session/Report.antt =====
-- internal/trace/session.go: reporting cycles, complete or not (`report`, `tryEmit`, `forceEmit`,
-- `flush`). `names` is what the reverse resolver answers at the time.
use prober.Prelude.{
  ℕ, zero, suc, ◌+◌, ◌-◌, Bool, not, ◌&&◌, List, [], ◌∷◌, Option, none, some, String, ltb, leb,
  if◌then◌else◌, length,
}
use prober.Prelude.Int.{pos, ltb_ℤ}
use prober.Prelude.Maps.{Map, lookup, insert, delete, nat_eq}
use prober.Netip.{Addr}
use prober.Trace.Stats.{HopStats, Hop, snapshot}
use prober.Trace.Session.State.{
  Session, CycleState, cycle_done, finished, Run, ok, panic, ◌>>=◌, emit, hop, missed_target_limit,
}

-- `c.ttls[len(c.ttls)-1]`
abbrev pub last_of : List ℕ → Option ℕ
last_of [] = none
last_of (t ∷ []) = some t
last_of (t ∷ u ∷ ts) = last_of (u ∷ ts)

-- `sample, sent := c.samples[ttl]`, nil where none was sent.
abbrev pub sample_of : ℕ → Map ℕ (Option ℕ) → Option ℕ
sample_of ttl samples = elim (lookup ttl samples) [ none ↦ none | some r ↦ r ]

-- The loop over `c.ttls`: the hops up to `last`, and the statistics with those that `hop` made.
unfoldable pub hops_upto :
    ℕ
    → Map ℕ (Option ℕ)
    → Option (Addr → String)
    → List ℕ
    → Map ℕ HopStats
    → List Hop × Map ℕ HopStats
hops_upto last samples names [] hops = ([], hops)
hops_upto last samples names (ttl ∷ ttls) hops =
    let h = hop ttl hops in
    let rest = hops_upto last samples names ttls (insert ttl h hops) in
    if ltb last ttl
    then ([], hops)
    else (snapshot h ttl (sample_of ttl samples) names ∷ rest.0, rest.1)

-- The target's place after a cycle: forgotten when it has missed three reports in a row.
unfoldable pub account_target : CycleState → Session → Session
account_target c s =
    let missed = s.missed_target + 1 in
    let is_known = ltb 0 s.reached_at in
    record s {
      missed_target = if is_known then (if c.target_seen then 0 else missed) else s.missed_target;
      reached_at =
          if is_known && (not c.target_seen && leb missed_target_limit missed)
          then 0
          else s.reached_at;
    }

-- The last TTL worth showing: the target's, where it is known and lies below.
abbrev pub shown_upto : ℕ → ℕ → ℕ
shown_upto reached last = if ltb 0 reached && ltb reached last then reached else last

-- The part of `report` after `c.ttls` was found to have a last element.
unfoldable pub report_upto : (Addr → String) → CycleState → Session → ℕ → Session
unfolding emit
report_upto names c s last =
    let resolved = if s.spec.resolve_names then some names else none in
    let (hops, stats) = hops_upto (shown_upto s.reached_at last) c.samples resolved c.ttls s.hops in
    emit (cycle_done (record { number = c.number; reached_at = s.reached_at; hops = hops }))
      (record s { hops = stats })

unfoldable pub report : (Addr → String) → CycleState → Session → Run Session
unfolding account_target report_upto
report names c s =
    let t =
      account_target c (record s { cycles = delete c.number s.cycles; next_emit = c.number + 1 }) in
    elim (last_of c.ttls) [ none ↦ panic | some last ↦ ok (report_upto names c t last) ]

-- A cycle whose report `tryEmit` need not put off.
abbrev pub is_complete : CycleState → Bool
is_complete c = not c.sending && not (ltb_ℤ (pos 0) c.outstanding)

unfoldable pub complete_next : Session → Option CycleState
complete_next s = elim (lookup s.next_emit s.cycles) [
  | none ↦ none
  | some c ↦ if is_complete c then some c else none
]

-- One round of the loop for each open cycle is enough: a round closes one.
unfoldable pub try_emit_loop : (Addr → String) → ℕ → Session → Run Session
unfolding complete_next
try_emit_loop names zero s = ok s
try_emit_loop names (suc fuel) s = elim (complete_next s) [
  | none ↦ ok s
  | some c ↦ report names c s >>= try_emit_loop names fuel
]

unfoldable pub try_emit : (Addr → String) → Session → Run Session
unfolding try_emit_loop
try_emit names s = try_emit_loop names (length s.cycles) s

-- One round of the loop for each number from `next_emit` up to `n`.
unfoldable pub force_emit_loop : (Addr → String) → ℕ → ℕ → Session → Run Session
force_emit_loop names zero n s = ok s
force_emit_loop names (suc fuel) n s =
    if leb s.next_emit n
    then (elim (lookup s.next_emit s.cycles) [
      | none ↦ force_emit_loop names fuel n (record s { next_emit = s.next_emit + 1 })
      | some c ↦ report names c s >>= force_emit_loop names fuel n
    ])
    else ok s

unfoldable pub force_emit : (Addr → String) → ℕ → Session → Run Session
unfolding force_emit_loop
force_emit names n s = force_emit_loop names (n + 1 - s.next_emit) n s

unfoldable pub flush : (Addr → String) → Bool → Session → Run Session
unfolding force_emit emit
flush names cancelled s = force_emit names s.cycle s >>= λ t. ok (emit (finished cancelled) t)
