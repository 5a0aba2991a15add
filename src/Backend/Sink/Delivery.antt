-- ===== src/Backend/Sink/Delivery.antt =====
-- A subscriber of the status stream of internal/backend/monitorsink.go, through whatever the sink does
-- after it subscribed.
use prober.Prelude.{
  ℕ, ◌+◌, ◌≡◌, ◌≢◌, ◌<◌, ◌≤◌, refl, sym, subst, ◌⊎◌, inl, inr, Bool, true, false, List, [], ◌∷◌,
  ◌++◌, Option, none, some, ◌==◌, ==_iff, if◌then◌else◌, Bool-cases, arith,
}
use mathlib.Core.List.{append_assoc}
use prober.Prelude.Maps.{Text, Map, lookup, insert, nat_eq, text_eq}
use prober.Api.{Event}
use prober.Backend.Registry.{MonitorRegistry}
use prober.Backend.Sink.State.{Aggregate, StatusEvent, Sink, new_sink}
use prober.Backend.Sink.Stream.{sweep, subscribe, unsubscribe, retain}
use prober.Backend.Sink.Events.{on_monitor_event}
use prober.Backend.Sink.Changes.{Shows, view_after}
use prober.Backend.Sink.Subscribers.{
  Subs, Numbers, insert-Numbers, delete-Numbers, Numbers-mono, IsNumbered, sweep-IsNumbered,
  retain-IsNumbered, on_monitor_event-IsNumbered,
}
use prober.Backend.Sink.Readers.{
  AtMostOne, IsAbsent-AtMostOne, IsCurrent, sweep-IsCurrent, retain-IsCurrent,
  on_monitor_event-IsCurrent,
}
use prober.Backend.Sink.Channels.{
  AtMostOne-insert_other, AtMostOne-insert, AtMostOne-delete, AtMostOne-lookup, Numbers-lookup,
}

-- What happens to a sink: an event of a monitor's job, a sweep, a reload, a new subscriber, one that
-- cancels, and one that takes the oldest event from its channel.
pub data Step : Type 0 where
  reports : Bool → ℕ → MonitorRegistry → Text → Text → Event → Step
  sweeps : ℕ → Step
  reloads : MonitorRegistry → ℕ → Step
  joins : Step
  leaves takes : ℕ → Step

-- The sink, and what one subscriber has taken so far, the oldest first.
pub record World : Type 0 where
  pub sink : Sink
  pub read : List StatusEvent

abbrev pub read_by : Bool → StatusEvent → List StatusEvent → List StatusEvent
read_by mine ev read = if mine then read ++ ev ∷ [] else read

abbrev pub taken : ℕ → ℕ → Option (List StatusEvent) → World → World
taken i j none w = w
taken i j (some []) w = w
taken i j (some (ev ∷ ch)) w = record w {
  sink = record w.sink { subs = insert j ch w.sink.subs };
  read = read_by (j == i) ev w.read;
}

-- A step, as subscriber `i` sees it.
unfoldable pub act : ℕ → Step → World → World
unfolding on_monitor_event sweep retain subscribe unsubscribe
act i (reports enabled now reg site id ev) w = record w {
  sink = on_monitor_event enabled now reg site id ev w.sink;
}
act i (sweeps now) w = record w { sink = sweep now w.sink }
act i (reloads reg now) w = record w { sink = retain reg now w.sink }
act i joins w = record w { sink = (subscribe w.sink).2 }
act i (leaves j) w = record w { sink = unsubscribe j w.sink }
act i (takes j) w = taken i j (lookup j w.sink.subs) w

unfoldable pub run : ℕ → List Step → World → World
unfolding act
run i [] w = w
run i (step ∷ steps) w = run i steps (act i step w)

-- The numbers in use are below the next one.
abbrev IsBounded : Sink → Type 0
IsBounded s = IsNumbered s.next_sub s

bounded : (n : ℕ) (s : Sink) → IsNumbered n s → IsBounded s × (n ≤ s.next_sub)
bounded n s (e, h) =
    ((refl, subst (λ (m : ℕ). Numbers (λ j. j < m) s.subs) (sym e) h), omega (arith, e))

act-IsBounded :
    (i : ℕ) (step : Step) (w : World)
    → IsBounded w.sink
    → IsBounded (act i step w).sink × (w.sink.next_sub ≤ (act i step w).sink.next_sub)
unfolding act subscribe unsubscribe
act-IsBounded i (reports enabled now reg site id ev) w h =
    bounded w.sink.next_sub (on_monitor_event enabled now reg site id ev w.sink)
      (on_monitor_event-IsNumbered w.sink.next_sub enabled now reg site id ev w.sink h)
act-IsBounded i (sweeps now) w h =
    bounded w.sink.next_sub (sweep now w.sink) (sweep-IsNumbered w.sink.next_sub now w.sink h)
act-IsBounded i (reloads reg now) w h =
    bounded w.sink.next_sub (retain reg now w.sink)
      (retain-IsNumbered w.sink.next_sub reg now w.sink h)
act-IsBounded i joins w (e, h) = (
  (
    refl,
    insert-Numbers (λ j. j < w.sink.next_sub + 1) w.sink.next_sub [] w.sink.subs (omega arith)
        (Numbers-mono (λ j. j < w.sink.next_sub) _ w.sink.subs (λ j p. omega (arith, p)) h),
  ),
  omega arith,
)
act-IsBounded i (leaves j) w (e, h) =
    ((refl, delete-Numbers (λ k. k < w.sink.next_sub) j w.sink.subs h), omega arith)
act-IsBounded i (takes j) w (e, h) = by_channel (lookup j w.sink.subs) refl
  where
    by_channel :
        (o : Option (List StatusEvent))
        → lookup j w.sink.subs ≡ o
        → IsBounded (taken i j o w).sink × (w.sink.next_sub ≤ (taken i j o w).sink.next_sub)
    by_channel none f = ((refl, h), omega arith)
    by_channel (some []) f = ((refl, h), omega arith)
    by_channel (some (ev ∷ ch)) f =
        let inside = Numbers-lookup (λ k. k < w.sink.next_sub) j (ev ∷ ch) w.sink.subs h f in
        ((refl, insert-Numbers (λ k. k < w.sink.next_sub) j ch w.sink.subs inside h), omega arith)

-- What holds of a subscriber from when it subscribed.
record IsServed (i : ℕ) (snapshot : Map Text Aggregate) (w : World) : Type 0 where
  is_bounded : IsBounded w.sink
  is_known : i < w.sink.next_sub
  is_current : IsCurrent i snapshot w.read w.sink

taken-IsCurrent :
    (i j : ℕ) (snapshot : Map Text Aggregate) (ev : StatusEvent) (ch : List StatusEvent) (w : World)
    → IsCurrent i snapshot w.read w.sink
    → lookup j w.sink.subs ≡ some (ev ∷ ch)
    → IsCurrent i snapshot (taken i j (some (ev ∷ ch)) w).read (taken i j (some (ev ∷ ch)) w).sink
taken-IsCurrent i j snapshot ev ch w h f = by_reader (Bool-cases (j == i))
  where
    put : Subs
    put = insert j ch w.sink.subs

    shown : List StatusEvent → List StatusEvent → Type 0
    shown read c = Shows (view_after (read ++ c) snapshot) w.sink.agg

    mine : j ≡ i → AtMostOne i (shown (w.read ++ ev ∷ [])) put
    mine e =
        let p =
          AtMostOne-lookup i (shown w.read) (ev ∷ ch) w.sink.subs h
            (subst (λ (k : ℕ). lookup k w.sink.subs ≡ some (ev ∷ ch)) e f) in
        subst (λ (k : ℕ). AtMostOne i (shown (w.read ++ ev ∷ [])) (insert k ch w.sink.subs)) (sym e)
          (AtMostOne-insert i (shown w.read) (shown (w.read ++ ev ∷ [])) ch w.sink.subs
            (subst (λ (evs : List StatusEvent). Shows (view_after evs snapshot) w.sink.agg)
              (sym (append_assoc w.read (ev ∷ []) ch)) p)
            h)

    by_reader :
        (j == i ≡ true) ⊎ (j == i ≡ false) → AtMostOne i (shown (read_by (j == i) ev w.read)) put
    by_reader (inl t) =
        subst (λ (b : Bool). AtMostOne i (shown (read_by b ev w.read)) put) (sym t)
          (mine ((==_iff j i).0 t))
    by_reader (inr n) =
        subst (λ (b : Bool). AtMostOne i (shown (read_by b ev w.read)) put) (sym n)
          (AtMostOne-insert_other i j (shown w.read) ch w.sink.subs
            (λ e. ground (arith, ==_iff j i)) h)

act-IsCurrent :
    (i : ℕ) (snapshot : Map Text Aggregate) (step : Step) (w : World)
    → i < w.sink.next_sub
    → IsCurrent i snapshot w.read w.sink
    → IsCurrent i snapshot (act i step w).read (act i step w).sink
unfolding act subscribe unsubscribe
act-IsCurrent i snapshot (reports enabled now reg site id ev) w k h =
    on_monitor_event-IsCurrent i snapshot w.read enabled now reg site id ev w.sink h
act-IsCurrent i snapshot (sweeps now) w k h = sweep-IsCurrent i snapshot w.read now w.sink h
act-IsCurrent i snapshot (reloads reg now) w k h =
    retain-IsCurrent i snapshot w.read reg now w.sink h
act-IsCurrent i snapshot joins w k h =
    AtMostOne-insert_other i w.sink.next_sub _ [] w.sink.subs (λ e. omega (arith, e, k)) h
act-IsCurrent i snapshot (leaves j) w k h = AtMostOne-delete i j _ w.sink.subs h
act-IsCurrent i snapshot (takes j) w k h = by_channel (lookup j w.sink.subs) refl
  where
    by_channel :
        (o : Option (List StatusEvent))
        → lookup j w.sink.subs ≡ o
        → IsCurrent i snapshot (taken i j o w).read (taken i j o w).sink
    by_channel none f = h
    by_channel (some []) f = h
    by_channel (some (ev ∷ ch)) f = taken-IsCurrent i j snapshot ev ch w h f

run-IsServed :
    (i : ℕ) (snapshot : Map Text Aggregate) (steps : List Step) (w : World)
    → IsServed i snapshot w
    → IsServed i snapshot (run i steps w)
unfolding run
run-IsServed i snapshot [] w h = h
run-IsServed i snapshot (step ∷ steps) w h =
    let (b, le) = act-IsBounded i step w h.is_bounded in
    run-IsServed i snapshot steps (act i step w) record {
      is_bounded = b;
      is_known = omega (arith, h.is_known, le);
      is_current = act-IsCurrent i snapshot step w h.is_known h.is_current;
    }

run-IsBounded :
    (i : ℕ) (steps : List Step) (w : World) → IsBounded w.sink → IsBounded (run i steps w).sink
unfolding run
run-IsBounded i [] w h = h
run-IsBounded i (step ∷ steps) w h =
    run-IsBounded i steps (act i step w) (act-IsBounded i step w h).0

abbrev pub fresh : World
fresh = record { sink = new_sink; read = [] }

-- The world when the next one subscribes: it has read nothing.
abbrev pub subscribed : Sink → World
subscribed s = record { sink = (subscribe s).2; read = [] }

subscribed-IsServed :
    (s : Sink) → IsBounded s → IsServed (subscribe s).1 (subscribe s).0 (subscribed s)
unfolding subscribe act insert
subscribed-IsServed s (e, h) = record {
  is_bounded = (act-IsBounded 0 joins (record { sink = s; read = [] }) (e, h)).0;
  is_known = omega arith;
  is_current =
      AtMostOne-insert s.next_sub (λ ch. Unit) _ [] s.subs (λ id a found. found)
        (IsAbsent-AtMostOne s.next_sub (λ ch. Unit) s.subs
          (Numbers-mono (λ j. j < s.next_sub) (λ j. j ≢ s.next_sub) s.subs
            (λ j p q. omega (arith, p, q)) h));
}

-- A sink that has gone through some steps.
abbrev pub sink_after : List Step → Sink
sink_after steps = (run 0 steps fresh).sink

-- What becomes of one that subscribes to a sink.
abbrev pub reader_after : Sink → List Step → World
reader_after s = λ (steps : List Step). run (subscribe s).1 steps (subscribed s)

-- Whatever a sink went through before a subscriber came and after it, as long as the subscriber is not
-- dropped and has not cancelled, the snapshot that it got, brought up to date with the events that it has
-- taken and with those that wait in its channel, has every monitor's current aggregate.
pub view_after-run :
    (before after : List Step) (id : Text) (a : Aggregate) (ch : List StatusEvent)
    → lookup (subscribe (sink_after before)).1 (reader_after (sink_after before) after).sink.subs
      ≡ some ch
    → lookup id (reader_after (sink_after before) after).sink.agg ≡ some a
    → lookup id (
        view_after
          ((reader_after (sink_after before) after).read ++ ch)
          (subscribe (sink_after before)).0)
      ≡ some a
unfolding new_sink
view_after-run before after id a ch kept found =
    let s = sink_after before in
    let served =
      run-IsServed (subscribe s).1 (subscribe s).0 after (subscribed s)
        (subscribed-IsServed s (run-IsBounded 0 before fresh (refl, tt))) in
    AtMostOne-lookup (subscribe s).1 _ ch (reader_after s after).sink.subs served.is_current kept id
      a found
