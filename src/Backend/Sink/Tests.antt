-- ===== src/Backend/Sink/Tests.antt =====
-- Small runs of internal/backend/monitorsink.go: one monitor at two sites, and a subscriber.
use prober.Prelude.{ℕ, ◌*◌, ◌≡◌, refl, true, some, none, List, [], ◌∷◌, ◌++◌, arith}
use prober.Prelude.Int.{pos}
use prober.Prelude.Maps.{Text, codes, lookup, insert, text_eq, nat_eq}
use prober.Trace.Stats.{of_int}
use prober.Api.{Event, cycle, error, code_resolve}
use prober.Backend.Config.{MonitorConfig, ping_kind}
use prober.Backend.Registry.{MonitorRegistry, new_registry}
use prober.Backend.Sink.State.{
  second, Aggregate, state_up, one_changed, new_sink, sites_of, stale_after, forget_after_for,
}
use prober.Backend.Sink.Stream.{refresh, subscribe}
use prober.Backend.Sink.Changes.{view_after}
use prober.Backend.Sink.Delivery.{
  Step, reports, sweeps, takes, joins, World, run, act, sink_after, reader_after, view_after-run,
}
use prober.Backend.Sink.Aggregates.{IsJudged, entries_at, refresh-IsJudged}
use prober.Backend.Sink.Windows.{forget_after_for-stale_after}

abbrev web : MonitorConfig
web = record {
  id = codes "web";
  kind = ping_kind;
  target = codes "192.0.2.1";
  interval_s = 30;
  sites = [];
  labels = [];
  trace = none;
  sip = none;
}

abbrev reg : MonitorRegistry
reg = new_registry (web ∷ [])

abbrev answered : Event
answered = cycle record {
  number = 1;
  reached_at = 1;
  hops =
      (record {
        ttl = 1;
        addresses = [];
        sample_us = some 300;
        sent = 1;
        received = 1;
        loss_pct = of_int (pos 0);
        last_us = 300;
        best_us = 300;
        avg_us = 300;
        worst_us = 300;
        stdev_us = 0;
        jitter_us = 0;
      })
      ∷ [];
}

abbrev at : ℕ → Text → Event → Step
at now site ev = reports true now reg site (codes "web") ev

-- One site is up, then another cannot be reached.
abbrev before : List Step
before = at 1 (codes "ams") answered ∷ joins ∷ []

abbrev after : List Step
after =
    at 2 (codes "fra") (error code_resolve [])
    ∷ takes 1
    ∷ sweeps 3
    ∷ at 4 (codes "fra") answered
    ∷ []

-- The aggregate at the end: both sites are up, since the instant 4.
abbrev both_up : Aggregate
both_up = record { state = state_up; up = 2; down = 0; stale = 0; sites = 2; since = some 4 }

abbrev reader : World
reader = reader_after (sink_after before) after

both_found : lookup (codes "web") reader.sink.agg ≡ some both_up
unfolding run act lookup insert new_sink new_registry
both_found = refl

-- The last change waits in the channel.
waiting : lookup 1 reader.sink.subs ≡ some (one_changed (codes "web") both_up ∷ [])
unfolding run act lookup insert new_sink new_registry
waiting = refl

view_after-run_example :
    lookup (codes "web") (
      view_after
        (reader.read ++ one_changed (codes "web") both_up ∷ [])
        (subscribe (sink_after before)).0)
    ≡ some both_up
unfolding run act lookup insert new_sink new_registry
view_after-run_example =
    view_after-run before after (codes "web") both_up (one_changed (codes "web") both_up ∷ [])
      waiting both_found

-- At the instant 5 both sites are counted as up.
refresh-IsJudged_example :
    let s = sink_after (before ++ after) in
    (a : Aggregate) × (lookup (codes "web") (refresh (codes "web") 5 s).agg ≡ some a)
    × IsJudged 5 (entries_at s.heap (sites_of (codes "web") s)) a
refresh-IsJudged_example = refresh-IsJudged (codes "web") 5 (sink_after (before ++ after))

forget_after_for-stale_after_example :
    (stale_after 30 ≡ pos (90 * second)) × (forget_after_for 30 ≡ pos (3600 * second))
forget_after_for-stale_after_example = forget_after_for-stale_after 30 (omega arith)
