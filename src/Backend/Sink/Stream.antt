-- ===== src/Backend/Sink/Stream.antt =====
-- internal/backend/monitorsink.go: each monitor's aggregate across its sites, the sweep, reloads, and the
-- stream of changes. A subscriber is closed when its channel is full, and leaves the set then; closing a
-- subscriber twice does nothing, so its lock and `closed` have no counterpart.
-- A walk over a Go map goes over the entries that it had, in the order of the list.
use prober.Prelude.{
  ℕ, ◌+◌, Bool, true, false, ◌||◌, not, List, [], ◌∷◌, ◌++◌, Option, none, some, get_elem?, length,
  ltb, ◌==◌, if◌then◌else◌,
}
use prober.Prelude.Maps.{Text, Map, lookup, insert, delete, text_eq, nat_eq}
use prober.Backend.Config.{MonitorConfig}
use prober.Backend.Registry.{MonitorRegistry, site_matches}
use prober.Backend.Sink.State.{
  MonKey, key_eq, MonState, MonitorState, state_up, state_down, state_partial, state_nodata,
  Aggregate, StatusEvent, one_changed, some_changed, reloaded, Sink, is_older, stale_after,
  forget_after_for, update_state, sites_of, forget_locked,
}

abbrev pub no_sites : Aggregate
no_sites = record { state = state_nodata; up = 0; down = 0; stale = 0; sites = 0; since = none }

-- How a site that has reported counts.
abbrev pub count_reported : Bool → Bool → Aggregate → Aggregate
count_reported true up a = record a { sites = a.sites + 1; stale = a.stale + 1 }
count_reported false true a = record a { sites = a.sites + 1; up = a.up + 1 }
count_reported false false a = record a { sites = a.sites + 1; down = a.down + 1 }

abbrev pub count_at : ℕ → MonState → Option ℕ → Aggregate → Aggregate
count_at now st none a = a
count_at now st (some at) a =
    count_reported (is_older now (stale_after st.interval_s) at) st.last.up a

abbrev pub count_found : ℕ → Option MonState → Aggregate → Aggregate
count_found now none a = a
count_found now (some st) a = count_at now st st.last.at a

unfoldable pub count_sites : ℕ → List MonState → Map Text ℕ → Aggregate → Aggregate
unfolding stale_after
count_sites now heap [] a = a
count_sites now heap ((site, ptr) ∷ rest) a =
    count_sites now heap rest (count_found now (get_elem? heap ptr) a)

-- The second `switch` of `aggregateLocked`.
abbrev pub state_for : Aggregate → MonitorState
state_for a =
    if a.sites == 0 || a.stale == a.sites
    then state_nodata
    else if a.up == a.sites
    then state_up
    else if a.up == 0
    then state_down
    else state_partial

unfoldable pub aggregate_locked : Text → ℕ → Sink → Aggregate
unfolding count_sites
aggregate_locked id now s =
    let a = count_sites now s.heap (sites_of id s) no_sites in record a { state = state_for a }

abbrev pub same_state : MonitorState → MonitorState → Bool
same_state state_up state_up = true
same_state state_down state_down = true
same_state state_partial state_partial = true
same_state state_nodata state_nodata = true
same_state _ _ = false

abbrev pub since_for : ℕ → Aggregate → Option Aggregate → Option ℕ
since_for now a none = some now
since_for now a (some prev) = if same_state a.state prev.state then prev.since else some now

abbrev pub is_changed : Aggregate → Option Aggregate → Bool
is_changed a none = true
is_changed a (some prev) =
    not (same_state a.state prev.state)
    || not (a.up == prev.up)
    || not (a.down == prev.down)
    || not (a.stale == prev.stale)
    || not (a.sites == prev.sites)

-- The new aggregate of a monitor.
unfoldable pub renewed : Text → ℕ → Sink → Aggregate
unfolding aggregate_locked
renewed id now s =
    let a = aggregate_locked id now s in record a { since = since_for now a (lookup id s.agg) }

unfoldable pub refresh_locked : Text → ℕ → Sink → Aggregate × Bool × Sink
unfolding renewed
refresh_locked id now s =
    let a = renewed id now s in
    (a, is_changed a (lookup id s.agg), record s { agg = insert id a s.agg })

abbrev pub capacity : ℕ
capacity = 1024

-- `statusSub.send` to every subscriber, and the removal of those that it closes.
abbrev pub send_each : StatusEvent → Map ℕ (List StatusEvent) → Map ℕ (List StatusEvent)
send_each ev [] = []
send_each ev ((i, ch) ∷ subs) =
    let rest = send_each ev subs in
    if ltb (length ch) capacity then (i, ch ++ ev ∷ []) ∷ rest else rest

unfoldable pub publish_locked : StatusEvent → Sink → Sink
publish_locked ev s = record s { subs = send_each ev s.subs }

unfoldable pub refresh : Text → ℕ → Sink → Sink
unfolding refresh_locked publish_locked
refresh id now s =
    let (a, changed, t) = refresh_locked id now s in
    if changed then publish_locked (one_changed id a) t else t

abbrev pub add_ids {ℓ} : {A : Type ℓ} → Map Text A → Map Text (Unit {0}) → Map Text (Unit {0})
add_ids [] ids = ids
add_ids ((id, x) ∷ rest) ids = add_ids rest (insert id tt ids)

unfoldable pub monitor_ids_locked : Sink → Map Text (Unit {0})
monitor_ids_locked s = add_ids s.agg (add_ids s.by_monitor [])

-- The loop of a sweep or a reload over the monitors, with the changes that it collects.
unfoldable pub refresh_each :
    ℕ → Map Text (Unit {0}) → Map Text Aggregate → Sink → Map Text Aggregate × Sink
unfolding refresh_locked
refresh_each now [] changes s = (changes, s)
refresh_each now ((id, u) ∷ ids) changes s =
    let (a, changed, t) = refresh_locked id now s in
    refresh_each now ids (if changed then insert id a changes else changes) t

abbrev pub publish_changes : Map Text Aggregate → Sink → Sink
publish_changes changes s =
    if length changes == 0 then s else publish_locked (some_changed changes) s

-- What a sweep and a reload end with.
unfoldable pub refresh_all : ℕ → Sink → Sink
unfolding refresh_each monitor_ids_locked publish_locked
refresh_all now s =
    let (changes, t) = refresh_each now (monitor_ids_locked s) [] s in publish_changes changes t

abbrev pub is_forgotten_at : ℕ → MonState → Option ℕ → Bool
is_forgotten_at now st none = false
is_forgotten_at now st (some at) = is_older now (forget_after_for st.interval_s) at

abbrev pub is_forgotten : ℕ → Option MonState → Bool
is_forgotten now none = false
is_forgotten now (some st) = is_forgotten_at now st st.last.at

unfoldable pub forget_silent : ℕ → Map MonKey ℕ → Sink → Sink
unfolding forget_locked forget_after_for
forget_silent now [] s = s
forget_silent now ((k, ptr) ∷ rest) s =
    forget_silent now rest
      (if is_forgotten now (get_elem? s.heap ptr) then forget_locked k s else s)

unfoldable pub sweep : ℕ → Sink → Sink
unfolding forget_silent refresh_all
sweep now s = refresh_all now (forget_silent now s.state s)

-- The snapshot, the subscriber's number and the sink; the version is read from the registry.
unfoldable pub subscribe : Sink → Map Text Aggregate × ℕ × Sink
subscribe s =
    (s.agg, s.next_sub, record s { subs = insert s.next_sub [] s.subs; next_sub = s.next_sub + 1 })

unfoldable pub unsubscribe : ℕ → Sink → Sink
unsubscribe i s = record s { subs = delete i s.subs }

-- One round of the first loop of `Retain`.
abbrev pub retain_found : MonKey → ℕ → Option MonitorConfig → Sink → Sink
retain_found k ptr none s = forget_locked k s
retain_found k ptr (some mc) s =
    if site_matches mc.sites k.site
    then update_state ptr (λ (st : MonState). record st { interval_s = mc.interval_s }) s
    else forget_locked k s

unfoldable pub retain_each : MonitorRegistry → Map MonKey ℕ → Sink → Sink
unfolding forget_locked site_matches update_state
retain_each reg [] s = s
retain_each reg ((k, ptr) ∷ rest) s =
    retain_each reg rest (retain_found k ptr (lookup k.monitor reg.by_id) s)

abbrev pub is_configured : Option MonitorConfig → Bool
is_configured none = false
is_configured (some mc) = true

abbrev pub prune : MonitorRegistry → Map Text Aggregate → Map Text Aggregate → Map Text Aggregate
prune reg [] agg = agg
prune reg ((id, a) ∷ rest) agg =
    prune reg rest (if is_configured (lookup id reg.by_id) then agg else delete id agg)

unfoldable pub retain : MonitorRegistry → ℕ → Sink → Sink
unfolding retain_each refresh_all publish_locked
retain reg now s =
    let t = retain_each reg s.state s in
    publish_locked (reloaded reg.version)
      (refresh_all now (record t { agg = prune reg t.agg t.agg }))
