-- ===== src/Agent/Jobs.antt =====
-- internal/agent/agent.go: the table of running jobs, the event counter and the start of a job.
-- A job's handle is a number, the next unused one; its context counts as cancelled once its handle is
-- in `cancelled`. What a target resolves to is not read here, only the error when it does not. The
-- counters have no bound: the event counter is a uint64 that goes up by one. What the code does under separate
-- locks is separate steps here: jobs being started and events being sent by several goroutines mix.
pub mod Table
use prober.Prelude.{
  ℕ, ◌+◌, Bool, true, false, List, [], ◌∷◌, ◌++◌, map, Option, none, some, length, ◌==◌, leb,
  if◌then◌else◌,
}
use prober.Prelude.Picks.{take_at}
use prober.Prelude.Int.{ℤ, pos}
use prober.Prelude.Maps.{Text, codes, Map, lookup, insert, delete, text_eq}
use prober.Trace.Spec.{or_default}
use prober.Backend.Registry.{TraceSpec, SipOptionsSpec}

pub record Limits : Type 0 where
  pub max_concurrent_jobs : ℤ
  pub max_cycles : ℤ
  pub min_interval_ms : ℤ
  pub max_ttl : ℤ

unfoldable pub with_defaults : Limits → Limits
with_defaults l = record {
  max_concurrent_jobs = or_default l.max_concurrent_jobs (pos 20);
  max_cycles = or_default l.max_cycles (pos 1_000);
  min_interval_ms = or_default l.min_interval_ms (pos 100);
  max_ttl = or_default l.max_ttl (pos 40);
}

pub data Code : Type 0 where
  code_unspecified code_limit code_resolve code_engine : Code

-- An event on its way to the backend: an error, or what an engine reported, carried unread.
pub data Body : Type 0 where
  job_error : Code → Text → Body
  engine_event : Text → Body

pub record AgentEvent : Type 0 where
  pub job_id : Text
  pub seq : ℕ
  pub body : Body

pub data StartSpec : Type 0 where
  start_none start_dns : StartSpec
  start_trace : TraceSpec → StartSpec
  start_sip : SipOptionsSpec → StartSpec

pub record StartJob : Type 0 where
  pub job_id : Text
  pub spec : StartSpec

pub record Agent : Type 0 where
  pub max_jobs : ℕ
  pub jobs : Map Text ℕ
  pub handles : ℕ
  pub cancelled : List ℕ
  pub starting : List StartJob  -- past the test of the limit, and not registered
  pub seq : ℕ
  pub unsent : List AgentEvent  -- numbered, and on their way to the stream
  pub sent : List AgentEvent
  pub lost : List AgentEvent  -- those that the stream did not take

unfoldable pub new_agent : ℕ → Agent
new_agent max_jobs = record {
  max_jobs = max_jobs;
  jobs = [];
  handles = 0;
  cancelled = [];
  starting = [];
  seq = 0;
  unsent = [];
  sent = [];
  lost = [];
}

-- An event takes the next number of the counter, before it is sent.
unfoldable pub number_event : Text → Body → Agent → Agent
number_event id body a = record a {
  seq = a.seq + 1;
  unsent = a.unsent ++ (record { job_id = id; seq = a.seq + 1; body = body }) ∷ [];
}

unfoldable pub send_error : Text → Code → Text → Agent → Agent
unfolding number_event
send_error id code message a = number_event id (job_error code message) a

abbrev pub send_found : Bool → Agent → Option (AgentEvent × List AgentEvent) → Agent
send_found ok a none = a
send_found true a (some (ev, rest)) = record a { unsent = rest; sent = a.sent ++ ev ∷ [] }
send_found false a (some (ev, rest)) = record a { unsent = rest; lost = a.lost ++ ev ∷ [] }

-- `send` for one of the numbered events; an error of the stream is ignored.
unfoldable pub send : ℕ → Bool → Agent → Agent
send i ok a = send_found ok a (take_at i a.unsent)

-- The handle of the job, and the table with it.
unfoldable pub add : Text → Agent → ℕ × Agent
add id a = (a.handles, record a { handles = a.handles + 1; jobs = insert id a.handles a.jobs })

abbrev pub is_held_by : ℕ → Option ℕ → Bool
is_held_by h none = false
is_held_by h (some k) = k == h

unfoldable pub remove : Text → ℕ → Agent → Agent
remove id h a = record a {
  jobs = if is_held_by h (lookup id a.jobs) then delete id a.jobs else a.jobs;
}

abbrev pub cancel_handle : Option ℕ → List ℕ → List ℕ
cancel_handle none cancelled = cancelled
cancel_handle (some h) cancelled = h ∷ cancelled

unfoldable pub cancel : Text → Agent → Agent
cancel id a = record a { cancelled = cancel_handle (lookup id a.jobs) a.cancelled }

unfoldable pub cancel_all : Agent → Agent
cancel_all a = record a { cancelled = map (λ (e : Text × ℕ). e.1) a.jobs ++ a.cancelled }

abbrev pub count : Agent → ℕ
count a = length a.jobs

abbrev pub is_some {ℓ} : {A : Type ℓ} → Option A → Bool
is_some none = false
is_some (some x) = true

unfoldable pub has : Text → Agent → Bool
has id a = is_some (lookup id a.jobs)

abbrev pub begin_spec : StartJob → StartSpec → Agent → Agent
begin_spec job start_none a = send_error job.job_id code_unspecified (codes "no job spec") a
begin_spec job start_dns a = record a { starting = a.starting ++ job ∷ [] }
begin_spec job (start_trace t) a = record a { starting = a.starting ++ job ∷ [] }
begin_spec job (start_sip s) a = record a { starting = a.starting ++ job ∷ [] }

-- `startJob` up to the resolving of the target.
unfoldable pub begin_job : StartJob → Agent → Agent
unfolding send_error
begin_job job a =
    if leb a.max_jobs (count a)
    then send_error job.job_id code_limit (codes "agent at job limit") a
    else begin_spec job job.spec a

abbrev pub add_resolved : Text → Option Text → Agent → Agent
add_resolved id none a = (add id a).1
add_resolved id (some message) a = send_error id code_resolve message a

abbrev pub register_spec : Option Text → Text → StartSpec → Agent → Agent
register_spec failure id start_none a = a
register_spec failure id start_dns a = (add id a).1
register_spec failure id (start_trace t) a = add_resolved id failure a
register_spec failure id (start_sip s) a = add_resolved id failure a

abbrev pub register_found : Option Text → Agent → Option (StartJob × List StartJob) → Agent
register_found failure a none = a
register_found failure a (some (job, rest)) =
    register_spec failure job.job_id job.spec (record a { starting = rest })

-- The rest of the start of one of the jobs, up to its goroutine. `failure` is the error that the resolver has
-- for the target, if any.
unfoldable pub register_job : ℕ → Option Text → Agent → Agent
unfolding send_error add
register_job i failure a = register_found failure a (take_at i a.starting)

-- What can happen to an agent, one lock at a time. The engine's error is numbered before the job leaves the table.
pub data Step : Type 0 where
  begins : StartJob → Step
  registers : ℕ → Option Text → Step
  reports : Text → Text → Step
  fails : Text → Code → Text → Step
  sends : ℕ → Bool → Step
  ends : Text → ℕ → Step
  cancels : Text → Step
  disconnects : Step

unfoldable pub step : Step → Agent → Agent
unfolding begin_job register_job number_event send_error send remove cancel cancel_all
step (begins job) a = begin_job job a
step (registers i failure) a = register_job i failure a
step (reports id payload) a = number_event id (engine_event payload) a
step (fails id code message) a = send_error id code message a
step (sends i ok) a = send i ok a
step (ends id h) a = remove id h a
step (cancels id) a = cancel id a
step disconnects a = cancel_all a

abbrev pub steps : List Step → Agent → Agent
steps [] a = a
steps (s ∷ ss) a = steps ss (step s a)
