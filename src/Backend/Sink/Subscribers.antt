-- ===== src/Backend/Sink/Subscribers.antt =====
-- The numbers of the subscribers of internal/backend/monitorsink.go: one that subscribes gets a fresh one.
use prober.Prelude.{
  ℕ, ◌≡◌, ◌<◌, sym, subst, ◌∙◌, Bool, true, false, List, [], ◌∷◌, ◌++◌, length, ltb, ◌==◌,
  if◌then◌else◌, All,
}
use prober.Prelude.Maps.{Text, Map, lookup, insert, delete, nat_eq, text_eq}
use prober.Api.{Event}
use prober.Backend.Registry.{MonitorRegistry}
use prober.Backend.Sink.State.{Aggregate, StatusEvent, one_changed, some_changed, reloaded, Sink}
use prober.Backend.Sink.Stream.{
  refresh, refresh_locked, renewed, is_changed, refresh_each, refresh_all, monitor_ids_locked,
  publish_locked, send_each, capacity, sweep, forget_silent, retain, retain_each, prune,
}
use prober.Backend.Sink.Events.{on_monitor_event}
use prober.Backend.Sink.Handlers.{
  IsQuiet, forget_silent-IsQuiet, retain_each-IsQuiet, Refreshed, unseen, then_refresh,
  on_monitor_event-Refreshed,
}

abbrev pub Subs : Type 0
Subs = Map ℕ (List StatusEvent)

-- Every subscriber's number satisfies `P`.
abbrev pub Numbers : (ℕ → Type 0) → Subs → Type 0
Numbers P = All (λ (e : ℕ × List StatusEvent). P e.0)

pub send_each-Numbers :
    (P : ℕ → Type 0) (ev : StatusEvent) (subs : Subs)
    → Numbers P subs
    → Numbers P (send_each ev subs)
send_each-Numbers P ev [] h = tt
send_each-Numbers P ev ((j, ch) ∷ rest) h =
    kept (ltb (length ch) capacity) (send_each-Numbers P ev rest h.1)
  where
    kept :
        (b : Bool)
        → Numbers P (send_each ev rest)
        → Numbers P (if b then (j, ch ++ ev ∷ []) ∷ send_each ev rest else send_each ev rest)
    kept true r = (h.0, r)
    kept false r = r

pub insert-Numbers :
    (P : ℕ → Type 0) (j : ℕ) (ch : List StatusEvent) (subs : Subs)
    → P j
    → Numbers P subs
    → Numbers P (insert j ch subs)
unfolding insert
insert-Numbers P j ch [] p h = (p, tt)
insert-Numbers P j ch ((i, c) ∷ rest) p h = put (i == j) (insert-Numbers P j ch rest p h.1)
  where
    put :
        (b : Bool)
        → Numbers P (insert j ch rest)
        → Numbers P (if b then (j, ch) ∷ rest else (i, c) ∷ insert j ch rest)
    put true r = (p, h.1)
    put false r = (h.0, r)

pub delete-Numbers :
    (P : ℕ → Type 0) (j : ℕ) (subs : Subs) → Numbers P subs → Numbers P (delete j subs)
unfolding delete
delete-Numbers P j [] h = tt
delete-Numbers P j ((i, c) ∷ rest) h = kept (i == j) (delete-Numbers P j rest h.1)
  where
    kept :
        (b : Bool)
        → Numbers P (delete j rest)
        → Numbers P (if b then delete j rest else (i, c) ∷ delete j rest)
    kept true r = r
    kept false r = (h.0, r)

pub Numbers-mono :
    (P Q : ℕ → Type 0) (subs : Subs) → ((j : ℕ) → P j → Q j) → Numbers P subs → Numbers Q subs
Numbers-mono P Q [] f h = tt
Numbers-mono P Q ((j, ch) ∷ rest) f h = (f j h.0, Numbers-mono P Q rest f h.1)

-- The next number is `n`, and all that are in use are below it.
abbrev pub IsNumbered : ℕ → Sink → Type 0
IsNumbered n s = (s.next_sub ≡ n) × Numbers (λ j. j < n) s.subs

pub IsQuiet-IsNumbered : (n : ℕ) (s t : Sink) → IsQuiet s t → IsNumbered n s → IsNumbered n t
IsQuiet-IsNumbered n s t q h =
    (q.same_next ∙ h.0, subst (Numbers (λ j. j < n)) (sym q.same_subs) h.1)

publish_locked-IsNumbered :
    (n : ℕ) (ev : StatusEvent) (s : Sink) → IsNumbered n s → IsNumbered n (publish_locked ev s)
unfolding publish_locked
publish_locked-IsNumbered n ev s h = (h.0, send_each-Numbers (λ j. j < n) ev s.subs h.1)

refresh-IsNumbered :
    (n : ℕ) (id : Text) (now : ℕ) (s : Sink) → IsNumbered n s → IsNumbered n (refresh id now s)
unfolding refresh refresh_locked
refresh-IsNumbered n id now s h = by_change (is_changed (renewed id now s) (lookup id s.agg))
  where
    u : Sink
    u = record s { agg = insert id (renewed id now s) s.agg }

    by_change :
        (b : Bool)
        → IsNumbered n (if b then publish_locked (one_changed id (renewed id now s)) u else u)
    by_change true = publish_locked-IsNumbered n (one_changed id (renewed id now s)) u h
    by_change false = h

refresh_each-IsNumbered :
    (n now : ℕ) (ids : Map Text (Unit {0})) (changes : Map Text Aggregate) (s : Sink)
    → IsNumbered n s
    → IsNumbered n (refresh_each now ids changes s).1
unfolding refresh_each refresh_locked
refresh_each-IsNumbered n now [] changes s h = h
refresh_each-IsNumbered n now ((id, u) ∷ ids) changes s h = refresh_each-IsNumbered n now ids _ _ h

refresh_all-IsNumbered : (n now : ℕ) (s : Sink) → IsNumbered n s → IsNumbered n (refresh_all now s)
unfolding refresh_all
refresh_all-IsNumbered n now s h = by_length (length collected.0 == 0)
  where
    collected : Map Text Aggregate × Sink
    collected = refresh_each now (monitor_ids_locked s) [] s

    k : IsNumbered n collected.1
    k = refresh_each-IsNumbered n now (monitor_ids_locked s) [] s h

    by_length :
        (b : Bool)
        → IsNumbered n
            (if b then collected.1 else publish_locked (some_changed collected.0) collected.1)
    by_length true = k
    by_length false = publish_locked-IsNumbered n (some_changed collected.0) collected.1 k

pub sweep-IsNumbered : (n now : ℕ) (s : Sink) → IsNumbered n s → IsNumbered n (sweep now s)
unfolding sweep
sweep-IsNumbered n now s h =
    let t = forget_silent now s.state s in
    refresh_all-IsNumbered n now t
      (IsQuiet-IsNumbered n s t (forget_silent-IsQuiet now s.state s) h)

pub retain-IsNumbered :
    (n : ℕ) (reg : MonitorRegistry) (now : ℕ) (s : Sink)
    → IsNumbered n s
    → IsNumbered n (retain reg now s)
unfolding retain
retain-IsNumbered n reg now s h =
    let t = retain_each reg s.state s in
    let u = record t { agg = prune reg t.agg t.agg } in
    let k = IsQuiet-IsNumbered n s t (retain_each-IsQuiet reg s.state s) h in
    publish_locked-IsNumbered n (reloaded reg.version) (refresh_all now u)
      (refresh_all-IsNumbered n now u k)

pub on_monitor_event-IsNumbered :
    (n : ℕ) (enabled : Bool) (now : ℕ) (reg : MonitorRegistry) (site id : Text) (ev : Event)
    (s : Sink)
    → IsNumbered n s
    → IsNumbered n (on_monitor_event enabled now reg site id ev s)
on_monitor_event-IsNumbered n enabled now reg site id ev s h =
    by_way (on_monitor_event-Refreshed enabled now reg site id ev s)
  where
    by_way : {t : Sink} → Refreshed s t → IsNumbered n t
    by_way (unseen q) = IsQuiet-IsNumbered n s _ q h
    by_way (then_refresh i at u q e) =
        subst (IsNumbered n) (sym e) (refresh-IsNumbered n i at u (IsQuiet-IsNumbered n s u q h))
