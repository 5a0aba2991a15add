-- ===== src/Agent/Tests.antt =====
-- Small runs of an agent with room for one job, and of its scheduler.
use prober.Prelude.{◌≡◌, true, false, List, [], ◌∷◌, none, some, arith, if◌then◌else◌}
use prober.Prelude.Maps.{Text, codes, lookup, text_eq}
use prober.Backend.Registry.{Monitor, Assignment, no_spec}
use prober.Agent.Jobs.{
  Agent, StartJob, start_dns, code_engine, new_agent, add, remove, Step, begins, registers, reports,
  fails, sends, ends, cancels, steps,
}
use prober.Agent.Jobs.Table.{IsNumbered, steps-IsNumbered, remove-add}
use prober.Agent.Scheduler.{new_scheduler, apply}
use prober.Agent.Scheduler.Schedule.{monitors_running, is_same, applies, apply-applies}

abbrev job : Text → StartJob
job id = record { job_id = id; spec = start_dns }

-- Both jobs pass the test of the limit before either is registered; the second event is sent first, and the
-- stream does not take the first.
abbrev history : List Step
history =
    begins (job (codes "a"))
    ∷ begins (job (codes "b"))
    ∷ registers 1 none
    ∷ registers 0 none
    ∷ reports (codes "a") []
    ∷ fails (codes "b") code_engine (codes "timeout")
    ∷ sends 1 true
    ∷ sends 0 false
    ∷ ends (codes "b") 0
    ∷ cancels (codes "a")
    ∷ []

steps-IsNumbered_example : IsNumbered (steps history (new_agent 1))
steps-IsNumbered_example = steps-IsNumbered 1 history

-- The agent runs job `a` under handle 0.
abbrev busy : Agent
busy = record {
  max_jobs = 2;
  jobs = (codes "a", 0) ∷ [];
  handles = 1;
  cancelled = [];
  starting = [];
  seq = 0;
  unsent = [];
  sent = [];
  lost = [];
}

remove-add_example :
    (lookup (codes "a") (add (codes "a") busy).1.jobs ≡ some (add (codes "a") busy).0)
    × (remove (codes "a") 0 (add (codes "a") busy).1 ≡ (add (codes "a") busy).1)
    × (lookup
          (codes "a")
          (remove (codes "a") (add (codes "a") busy).0 (add (codes "a") busy).1).jobs
        ≡ none)
remove-add_example = remove-add (codes "a") 0 busy (omega arith)

abbrev monitor : Text → Monitor
monitor id = record { id = id; interval_s = 60; labels = []; spec = no_spec }

abbrev first : Assignment
first = record { version = 1; monitors = monitor (codes "x") ∷ monitor (codes "y") ∷ [] }

abbrev second : Assignment
second = record { version = 2; monitors = monitor (codes "y") ∷ [] }

apply-applies_example :
    let s = applies (some first ∷ none ∷ []) new_scheduler in
    (monitors_running (apply (some second) s)
      ≡ (if is_same second s then monitors_running s else second.monitors))
apply-applies_example = apply-applies (some first ∷ none ∷ []) second
