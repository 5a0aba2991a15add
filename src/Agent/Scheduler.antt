-- ===== src/Agent/Scheduler.antt =====
-- internal/agent/scheduler.go: the monitors that an agent runs by itself. A monitor's goroutine is
-- known by the number of its context; cancelling the context stops it.
pub mod Schedule
use prober.Prelude.{
  ℕ, ◌+◌, ◌*◌, ◌/◌, Bool, true, false, not, ◌&&◌, List, [], ◌∷◌, ◌++◌, length, Option, none, some,
  ◌==◌, ltb, if◌then◌else◌,
}
use prober.Prelude.Maps.{Text, codes, Map, delete, nat_eq}
use prober.Backend.Registry.{Monitor, Assignment, JobSpec, no_spec, trace_job, sip_job}
use prober.Agent.Jobs.{
  Agent, StartJob, StartSpec, start_none, start_dns, start_trace, start_sip, has, begin_job,
}

abbrev pub monitor_job_prefix : Text
monitor_job_prefix = codes "mon:"

unfoldable pub monitor_job_id : Text → Text
monitor_job_id id = monitor_job_prefix ++ id

-- `running` has the goroutine of each monitor that has not been stopped, by the number of its context.
pub record Scheduler : Type 0 where
  pub version : ℕ
  pub cancels : List ℕ
  pub contexts : ℕ
  pub running : Map ℕ Monitor

unfoldable pub new_scheduler : Scheduler
new_scheduler = record { version = 0; cancels = []; contexts = 0; running = [] }

abbrev pub stop_all : List ℕ → Map ℕ Monitor → Map ℕ Monitor
stop_all [] running = running
stop_all (c ∷ cs) running = stop_all cs (delete c running)

unfoldable pub stop_locked : Scheduler → Scheduler
stop_locked s = record s { running = stop_all s.cancels s.running; cancels = [] }

-- One round of the loop of `apply`.
abbrev pub start_monitor : Monitor → Scheduler → Scheduler
start_monitor m s = record s {
  cancels = s.cancels ++ s.contexts ∷ [];
  contexts = s.contexts + 1;
  running = s.running ++ (s.contexts, m) ∷ [];
}

abbrev pub start_monitors : List Monitor → Scheduler → Scheduler
start_monitors [] s = s
start_monitors (m ∷ ms) s = start_monitors ms (start_monitor m s)

unfoldable pub apply : Option Assignment → Scheduler → Scheduler
unfolding stop_locked
apply none s = s
apply (some as_new) s =
    if not (as_new.version == 0) && as_new.version == s.version
    then s
    else start_monitors as_new.monitors (record (stop_locked s) { version = as_new.version })

abbrev pub nanoseconds : ℕ
nanoseconds = 1_000_000_000

abbrev pub interval_of : Monitor → ℕ
interval_of m = if m.interval_s == 0 then 60 * nanoseconds else m.interval_s * nanoseconds

-- When monitor `i` of `n` fires for the `k`-th time, counted from the start of its goroutine. The
-- product, an int64, is not bounded here.
unfoldable pub offset : ℕ → ℕ → Monitor → ℕ
offset i n m = if ltb 1 n then interval_of m * i / n else 0

unfoldable pub fires_at : ℕ → ℕ → Monitor → ℕ → ℕ
unfolding offset
fires_at i n m k = offset i n m + k * interval_of m

abbrev pub job_of_spec : Text → JobSpec → Option StartJob
job_of_spec id no_spec = none
job_of_spec id (trace_job t) = some (record { job_id = monitor_job_id id; spec = start_trace t })
job_of_spec id (sip_job s) = some (record { job_id = monitor_job_id id; spec = start_sip s })

unfoldable pub start_job_from_monitor : Monitor → Option StartJob
unfolding monitor_job_id
start_job_from_monitor m = job_of_spec m.id m.spec

abbrev pub begin_found : Option StartJob → Agent → Agent
begin_found none a = a
begin_found (some job) a = begin_job job a

-- `startJob` goes on with `register_job`.
unfoldable pub fire : Monitor → Agent → Agent
unfolding start_job_from_monitor monitor_job_id has begin_job
fire m a = if has (monitor_job_id m.id) a then a else begin_found (start_job_from_monitor m) a
