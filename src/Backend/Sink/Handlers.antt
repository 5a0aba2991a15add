-- ===== src/Backend/Sink/Handlers.antt =====
-- What the handlers of internal/backend/monitorsink.go leave alone: only a refresh and a reload touch
-- the aggregates and the subscribers.
use prober.Prelude.{
  ℕ, ◌≡◌, refl, ◌∙◌, Bool, true, false, [], ◌∷◌, Option, none, some, get_elem?, if◌then◌else◌,
}
use prober.Prelude.Maps.{Text, Map, lookup, text_eq}
use prober.Api.{
  Event, Cycle, Hop, SipResult, Started, ErrorCode, started, cycle, sip_result, dns_result,
  finished, error,
}
use prober.Backend.Config.{MonitorConfig}
use prober.Backend.Registry.{MonitorRegistry, site_matches}
use prober.Backend.Sink.State.{
  MonKey, key_eq, MonState, Labels, MetricOp, count_probe, count_success, count_response, set_up,
  Sink, update_state, add_metric, place, keep_locked, is_at, forget_locked,
}
use prober.Backend.Sink.Stream.{refresh, is_forgotten, forget_silent, retain_found, retain_each}
use prober.Backend.Sink.Events.{
  Spot, state_for, state_found, state_made, record_outcome, success_metrics, rtt_metric,
  response_rtt, reached_hop, dest_hop, on_started, on_cycle, on_sip_result, drop_report,
  ship_report, on_error, error_outcome, is_engine, handle, handle_at, handle_found,
  on_monitor_event,
}

-- The aggregates and the subscribers are as they were.
pub record IsQuiet (s t : Sink) : Type 0 where
  pub same_agg : t.agg ≡ s.agg
  pub same_subs : t.subs ≡ s.subs
  pub same_next : t.next_sub ≡ s.next_sub

pub IsQuiet-refl : (s : Sink) → IsQuiet s s
IsQuiet-refl s = record { same_agg = refl; same_subs = refl; same_next = refl }

pub IsQuiet-trans : (s t u : Sink) → IsQuiet s t → IsQuiet t u → IsQuiet s u
IsQuiet-trans s t u h k = record {
  same_agg = k.same_agg ∙ h.same_agg;
  same_subs = k.same_subs ∙ h.same_subs;
  same_next = k.same_next ∙ h.same_next;
}

-- A sink that differs in fields of no concern here.
abbrev quiet :
    (s t : Sink) → t.agg ≡ s.agg → t.subs ≡ s.subs → t.next_sub ≡ s.next_sub → IsQuiet s t
quiet s t a b c = record { same_agg = a; same_subs = b; same_next = c }

if-IsQuiet : (b : Bool) (s t u : Sink) → IsQuiet s t → IsQuiet s u → IsQuiet s (if b then t else u)
if-IsQuiet true s t u h k = h
if-IsQuiet false s t u h k = k

update_state-IsQuiet :
    (ptr : ℕ) (f : MonState → MonState) (s : Sink) → IsQuiet s (update_state ptr f s)
unfolding update_state
update_state-IsQuiet ptr f s = quiet s (update_state ptr f s) refl refl refl

keep_locked-IsQuiet : (site id : Text) (ptr : ℕ) (s : Sink) → IsQuiet s (keep_locked site id ptr s)
unfolding keep_locked place
keep_locked-IsQuiet site id ptr s =
    if-IsQuiet (is_at ptr (lookup (record { site = site; monitor = id }) s.state)) s s
      (place site id ptr s) (IsQuiet-refl s) (quiet s (place site id ptr s) refl refl refl)

record_outcome-IsQuiet :
    (spot : Spot) (f : MonState → MonState) (s : Sink) → IsQuiet s (record_outcome spot f s)
unfolding record_outcome
record_outcome-IsQuiet spot f s =
    let t = keep_locked spot.site spot.id spot.ptr s in
    IsQuiet-trans s t (update_state spot.ptr f t) (keep_locked-IsQuiet spot.site spot.id spot.ptr s)
      (update_state-IsQuiet spot.ptr f t)

forget_locked-IsQuiet : (k : MonKey) (s : Sink) → IsQuiet s (forget_locked k s)
unfolding forget_locked add_metric
forget_locked-IsQuiet k s = quiet s (forget_locked k s) refl refl refl

pub forget_silent-IsQuiet :
    (now : ℕ) (entries : Map MonKey ℕ) (s : Sink) → IsQuiet s (forget_silent now entries s)
unfolding forget_silent
forget_silent-IsQuiet now [] s = IsQuiet-refl s
forget_silent-IsQuiet now ((k, ptr) ∷ rest) s =
    let t = if is_forgotten now (get_elem? s.heap ptr) then forget_locked k s else s in
    IsQuiet-trans s t (forget_silent now rest t)
      (if-IsQuiet (is_forgotten now (get_elem? s.heap ptr)) s (forget_locked k s) s
        (forget_locked-IsQuiet k s) (IsQuiet-refl s))
      (forget_silent-IsQuiet now rest t)

retain_found-IsQuiet :
    (k : MonKey) (ptr : ℕ) (found : Option MonitorConfig) (s : Sink)
    → IsQuiet s (retain_found k ptr found s)
retain_found-IsQuiet k ptr none s = forget_locked-IsQuiet k s
retain_found-IsQuiet k ptr (some mc) s =
    if-IsQuiet (site_matches mc.sites k.site) s _ _ (update_state-IsQuiet ptr _ s)
      (forget_locked-IsQuiet k s)

pub retain_each-IsQuiet :
    (reg : MonitorRegistry) (entries : Map MonKey ℕ) (s : Sink)
    → IsQuiet s (retain_each reg entries s)
unfolding retain_each
retain_each-IsQuiet reg [] s = IsQuiet-refl s
retain_each-IsQuiet reg ((k, ptr) ∷ rest) s =
    let t = retain_found k ptr (lookup k.monitor reg.by_id) s in
    IsQuiet-trans s t (retain_each reg rest t)
      (retain_found-IsQuiet k ptr (lookup k.monitor reg.by_id) s) (retain_each-IsQuiet reg rest t)

success_metrics-IsQuiet :
    (lv : Labels) (hop : Option Hop) (s : Sink) → IsQuiet s (success_metrics lv hop s)
unfolding add_metric
success_metrics-IsQuiet lv none s = IsQuiet-refl s
success_metrics-IsQuiet lv (some h) s = quiet s (success_metrics lv (some h) s) refl refl refl

rtt_metric-IsQuiet : (lv : Labels) (us : Option ℕ) (s : Sink) → IsQuiet s (rtt_metric lv us s)
unfolding add_metric
rtt_metric-IsQuiet lv none s = IsQuiet-refl s
rtt_metric-IsQuiet lv (some us) s = quiet s (rtt_metric lv (some us) s) refl refl refl

on_cycle-IsQuiet :
    (now : ℕ) (spot : Spot) (c : Cycle) (s : Sink) → IsQuiet s (on_cycle now spot c s)
unfolding on_cycle add_metric
on_cycle-IsQuiet now spot c s =
    let m = success_metrics-IsQuiet spot.labels (reached_hop (dest_hop c)) (add_metric _ s) in
    IsQuiet-trans s _ (on_cycle now spot c s) (quiet s _ m.same_agg m.same_subs m.same_next)
      (record_outcome-IsQuiet spot _ _)

add_metric-IsQuiet : (op : MetricOp) (s t : Sink) → IsQuiet s t → IsQuiet s (add_metric op t)
unfolding add_metric
add_metric-IsQuiet op s t h = quiet s (add_metric op t) h.same_agg h.same_subs h.same_next

on_sip_result-IsQuiet :
    (now : ℕ) (spot : Spot) (r : SipResult) (s : Sink) → IsQuiet s (on_sip_result now spot r s)
unfolding on_sip_result
on_sip_result-IsQuiet now spot r s =
    let lv = spot.labels in
    let t =
      add_metric (count_response lv (if r.responded then some r.status_code else none))
        (add_metric (count_probe lv) s) in
    let u = if r.responded then add_metric (count_success lv) t else t in
    let v = add_metric (set_up lv r.responded) u in
    let w = rtt_metric lv (response_rtt r) v in
    let st = add_metric-IsQuiet _ s _ (add_metric-IsQuiet (count_probe lv) s s (IsQuiet-refl s)) in
    let su =
      if-IsQuiet r.responded s (add_metric (count_success lv) t) t
        (add_metric-IsQuiet (count_success lv) s t st) st in
    IsQuiet-trans s w (record_outcome spot _ w)
      (IsQuiet-trans s v w (add_metric-IsQuiet (set_up lv r.responded) s u su)
        (rtt_metric-IsQuiet lv (response_rtt r) v))
      (record_outcome-IsQuiet spot _ w)

on_started-IsQuiet :
    (now : ℕ) (spot : Spot) (time : Option ℕ) (st : Started) (s : Sink)
    → IsQuiet s (on_started now spot time st s)
unfolding on_started
on_started-IsQuiet now spot time st s = update_state-IsQuiet spot.ptr _ s

drop_report-IsQuiet : (spot : Spot) (s : Sink) → IsQuiet s (drop_report spot s)
unfolding drop_report
drop_report-IsQuiet spot s = update_state-IsQuiet spot.ptr _ s

ship_report-IsQuiet :
    (enabled : Bool) (spot : Spot) (message : Text) (s : Sink)
    → IsQuiet s (ship_report enabled spot message s)
unfolding ship_report
ship_report-IsQuiet enabled spot message s =
    let h = drop_report-IsQuiet spot s in
    quiet s (ship_report enabled spot message s) h.same_agg h.same_subs h.same_next

on_error-IsQuiet :
    (enabled : Bool) (now : ℕ) (spot : Spot) (code : ErrorCode) (message : Text) (s : Sink)
    → IsQuiet s (on_error enabled now spot code message s)
unfolding on_error
on_error-IsQuiet enabled now spot code message s =
    let lv = spot.labels in
    let t = add_metric (set_up lv false) (add_metric (count_probe lv) s) in
    let u =
      record_outcome spot (λ (m : MonState). record m { last = error_outcome now message m }) t in
    let st =
      add_metric-IsQuiet (set_up lv false) s _
        (add_metric-IsQuiet (count_probe lv) s s (IsQuiet-refl s)) in
    let su = IsQuiet-trans s t u st (record_outcome-IsQuiet spot _ t) in
    if-IsQuiet (is_engine code) s _ _
      (IsQuiet-trans s u _ su (ship_report-IsQuiet enabled spot message u))
      (IsQuiet-trans s u _ su (drop_report-IsQuiet spot u))

-- What an event comes to: changes that the stream does not see, and a refresh at most.
pub data Refreshed (s t : Sink) : Type 0 where
  unseen : IsQuiet s t → Refreshed s t
  then_refresh :
      (id : Text) (now : ℕ) (u : Sink) → IsQuiet s u → t ≡ refresh id now u → Refreshed s t

handle-Refreshed :
    (enabled : Bool) (now : ℕ) (spot : Spot) (ev : Event) (s : Sink)
    → Refreshed s (handle enabled now spot ev s)
unfolding handle
handle-Refreshed enabled now spot (started time st) s =
    unseen (on_started-IsQuiet now spot time st s)
handle-Refreshed enabled now spot (cycle c) s =
    then_refresh spot.id now _ (on_cycle-IsQuiet now spot c s) refl
handle-Refreshed enabled now spot (sip_result r) s =
    then_refresh spot.id now _ (on_sip_result-IsQuiet now spot r s) refl
handle-Refreshed enabled now spot dns_result s = unseen (IsQuiet-refl s)
handle-Refreshed enabled now spot (finished cancelled) s = unseen (
    if-IsQuiet cancelled s _ _ (drop_report-IsQuiet spot s) (ship_report-IsQuiet enabled spot [] s))
handle-Refreshed enabled now spot (error code message) s =
    then_refresh spot.id now _ (on_error-IsQuiet enabled now spot code message s) refl

state_for-IsQuiet :
    (site id : Text) (reg : MonitorRegistry) (s : Sink) → IsQuiet s (state_for site id reg s).1
unfolding state_for place
state_for-IsQuiet site id reg s = found (lookup (record { site = site; monitor = id }) s.state)
  where
    made : (o : Option MonitorConfig) → IsQuiet s (state_made site id o s).1
    made none = IsQuiet-refl s
    made (some mc) = quiet s (state_made site id (some mc) s).1 refl refl refl

    found : (o : Option ℕ) → IsQuiet s (state_found site id reg o s).1
    found none = made (lookup id reg.by_id)
    found (some ptr) = IsQuiet-refl s

Refreshed-after : (s t u : Sink) → IsQuiet s t → Refreshed t u → Refreshed s u
Refreshed-after s t u h (unseen k) = unseen (IsQuiet-trans s t u h k)
Refreshed-after s t u h (then_refresh id now v k e) =
    then_refresh id now v (IsQuiet-trans s t v h k) e

pub on_monitor_event-Refreshed :
    (enabled : Bool) (now : ℕ) (reg : MonitorRegistry) (site id : Text) (ev : Event) (s : Sink)
    → Refreshed s (on_monitor_event enabled now reg site id ev s)
unfolding on_monitor_event
on_monitor_event-Refreshed enabled now reg site id ev s =
    at_pointer (state_for site id reg s).0 (state_for site id reg s).1
      (state_for-IsQuiet site id reg s)
  where
    at_entry :
        (ptr : ℕ) (o : Option MonState) (t : Sink)
        → IsQuiet s t
        → Refreshed s (handle_at enabled now site id ev ptr o t)
    at_entry ptr none t h = unseen h
    at_entry ptr (some m) t h = Refreshed-after s t _ h (handle-Refreshed enabled now _ ev t)

    at_pointer :
        (o : Option ℕ) (t : Sink)
        → IsQuiet s t
        → Refreshed s (handle_found enabled now site id ev (o, t))
    at_pointer none t h = unseen h
    at_pointer (some ptr) t h = at_entry ptr (get_elem? t.heap ptr) t h
