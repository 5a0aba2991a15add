-- ===== src/Backend/Tests.antt =====
-- Small runs of internal/backend/run.go at two sites.
use prober.Prelude.{ℕ, ◌≡◌, refl, true, some, List, [], ◌∷◌, ◌++◌, arith, range_from, ◌-◌}
use prober.Prelude.Maps.{Text, codes, lookup, insert, delete, text_eq}
use prober.Backend.Run.{
  Kind, started, cycle, finished, JobEvent, site_of, Run, emits, delivers, steps, emit, subscribe,
  new_run, job_id_of, Dispatch, no_agent, started_job, check_done, start_site, start, on_events,
  is_empty,
}
use prober.Backend.Run.Sites.{site_of-job_id_of}
use prober.Backend.Run.Replay.{on_events-backlog, seqs}
use prober.Backend.Run.Sends.{Receives, steps-subscribe}
use prober.Backend.Run.Completion.{on_events-start, on_events-start-done}
use prober.Prelude.Int.{pos}
use prober.Prelude.{◌↔◌, none, false}
use prober.Backend.Config.{Config, MonitorConfig, ping_kind, validate}
use prober.Backend.Config.Validity.{IsValid, validate-IsValid}
use prober.Backend.Registry.{assignment_for, replace, new_registry, set_monitors}
use prober.Backend.Registry.Assignments.{Selected, assignment_for-replace}
use prober.Prelude.Int.{negsuc}
use prober.Backend.Config.{
  check_listen, check_agent, agents_from, check_monitor, monitors_from, validate_monitors,
}
use prober.Backend.Gateway.{
  Gateway, Conn, as_site, auth_site, new_gateway, add_agent, remove_agent, connected,
}
use prober.Backend.Gateway.Authentication.{auth_site-new_gateway}
use prober.Prelude.{◌++◌}
use prober.Backend.Gateway.Frames.{
  Step as GatewayStep, routes, starts, leaves, steps as gateway_steps,
}
use prober.Backend.Gateway.Connections.{remove_agent-add_agent}

abbrev ams : Text
ams = codes "ams"

abbrev run_id : Text
run_id = codes "5f"

site_of-job_id_of_example : site_of (job_id_of run_id ams) ≡ ams
site_of-job_id_of_example =
    site_of-job_id_of run_id ams (omega arith, (omega arith, (omega arith, tt)))

-- The agent of `fra` is away.
abbrev sites : List (Text × Dispatch)
sites = (ams, started_job) ∷ (codes "fra", no_agent) ∷ []

abbrev event : Kind → JobEvent
event k = record { job_id = job_id_of run_id ams; kind = k; payload = [] }

abbrev events : List (ℕ × JobEvent)
events = (5, event started) ∷ (6, event cycle) ∷ (7, event finished) ∷ []

on_events-backlog_example :
    let r = on_events events (start 4 run_id sites) in
    (seqs (subscribe 0 2 r).0 ≡ range_from 3 (r.seq - 2))
on_events-backlog_example = on_events-backlog 4 run_id sites events 0 2

on_events-start_example :
    let r = on_events events (start 4 run_id sites) in (r.done ≡ is_empty r.pending)
on_events-start_example = on_events-start 4 run_id sites events

on_events-start-done_example : (on_events events (start 4 run_id sites)).done ≡ true
unfolding start start_site new_run check_done emit insert delete
on_events-start-done_example = on_events-start-done 4 run_id sites events (refl, tt)

-- Two events come in, and the second is sent first.
steps-subscribe_example :
    let r = start 4 run_id sites in
    (t : Run) × (steps
        (emits (event started) ∷ emits (event cycle) ∷ delivers 1 ∷ [])
        (subscribe 9 0 r).2
      ≡ some t)
    × Receives 0 (subscribe 9 0 r).0 (subscribe 9 0 r).1 t
unfolding start start_site new_run check_done emit insert delete
steps-subscribe_example =
    steps-subscribe (emits (event started) ∷ emits (event cycle) ∷ delivers 1 ∷ []) 9 0
      (start 4 run_id sites) refl (omega arith) tt tt (omega arith)

abbrev monitor : Text → List Text → MonitorConfig
monitor id sites_of = record {
  id = id;
  kind = ping_kind;
  target = codes "192.0.2.1";
  interval_s = 60;
  sites = sites_of;
  labels = [];
  trace = none;
  sip = none;
}

abbrev config : Config
config = record {
  listen = record {
    grpc = record {
      addr = codes ":9443";
      cert = [];
      cert_file = codes "c.pem";
      key = [];
      key_file = codes "k.pem";
    };
    http = codes ":8080";
    metrics = [];
  };
  agent_token = [];
  allowed_sites = [];
  agents =
      (record { site = ams; token = codes "t1" })
      ∷ (record { site = codes "fra"; token = codes "t2" })
      ∷ [];
  run_ttl = pos 0;
  monitors = monitor (codes "m1") [] ∷ monitor (codes "m2") (ams ∷ []) ∷ [];
}

validate-IsValid_example : (validate config ≡ none) ↔ IsValid config
validate-IsValid_example = validate-IsValid config

assignment_for-replace_example :
    let a = assignment_for (codes "fra") (replace config.monitors (new_registry [])) in
    (a.version ≡ 2) × Selected (codes "fra") config.monitors a.monitors
unfolding new_registry set_monitors
assignment_for-replace_example =
    assignment_for-replace (codes "fra") config.monitors (new_registry [])
      ((ground arith, tt), (tt, tt))

auth_site-new_gateway_example :
    auth_site (codes "t2") ams (new_gateway config) ≡ as_site (codes "fra")
unfolding validate check_listen check_agent agents_from check_monitor monitors_from
    validate_monitors lookup insert
auth_site-new_gateway_example =
    auth_site-new_gateway config ams (record { site = ams; token = codes "t1" } ∷ []) []
      (record { site = codes "fra"; token = codes "t2" }) refl refl

abbrev conn : Conn
conn = record {
  site = ams;
  connected_at = 3;
  assignment_version = 0;
  ping_nonce = 0;
  ping_sent_at = 0;
  rtt_us = negsuc 0;
  outbox = [];
}

abbrev reconnecting : Gateway
reconnecting = record (new_gateway config) { agents = (ams, 0) ∷ []; conns = conn ∷ [] }

remove_agent-add_agent_example :
    (connected ams (add_agent conn reconnecting) ≡ true)
    × (connected ams (remove_agent ams 0 (add_agent conn reconnecting)) ≡ true)
    × (connected ams (remove_agent ams 1 (add_agent conn reconnecting)) ≡ false)
remove_agent-add_agent_example = remove_agent-add_agent conn 0 reconnecting (omega arith)

-- Another job is started while this one runs, and an event comes in too late.
abbrev during : List GatewayStep
during =
    routes ams (event started)
    ∷ starts true ams (job_id_of run_id (codes "fra")) 9
    ∷ leaves ams 0
    ∷ routes ams (event finished)
    ∷ []
