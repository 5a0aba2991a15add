-- ===== src/Agent/Jobs/Table.antt =====
-- What internal/agent/agent.go's counter of events and table of jobs keep to.
use prober.Prelude.{
  ℕ, suc, ◌+◌, ◌≡◌, ◌<◌, refl, sym, ap, subst, ◌∙◌, Bool, true, false, List, [], ◌∷◌, ◌++◌, map,
  Option, none, some, arith, ◌==◌, leb, if◌then◌else◌, range_from, range_from-snoc,
}
use mathlib.Core.List.{Perm, perm_middle, map-append, append_assoc}
use mathlib.Core.List.Perm
use prober.Prelude.Picks.{take_at, Split, take_at-Split}
use prober.Prelude.Maps.{
  Text, codes, lookup, insert, text_eq, =?_refl, lookup-insert_self, lookup-delete,
}
use prober.Agent.Jobs.{
  Agent, AgentEvent, Body, StartJob, StartSpec, start_none, start_dns, start_trace, start_sip,
  new_agent, number_event, send_error, send_found, send, add, remove, cancel, cancel_all, count,
  begin_spec, begin_job, register_spec, register_found, register_job, Step, begins, registers,
  reports, fails, sends, ends, cancels, disconnects, step, steps, code_limit,
}

-- The events that were sent, those that the stream did not take and those on their way are, in some order,
-- events with the numbers 1 to the counter.
pub record IsNumbered (a : Agent) : Type 0 where
  pub events : List AgentEvent
  pub numbered : map (λ (e : AgentEvent). e.seq) events ≡ range_from 1 a.seq
  pub together : Perm (a.sent ++ (a.lost ++ a.unsent)) events

number_event-IsNumbered :
    (id : Text) (body : Body) (a : Agent) → IsNumbered a → IsNumbered (number_event id body a)
unfolding number_event
number_event-IsNumbered id body a v = record {
  events = v.events ++ ev ∷ [];
  numbered =
      map-append (λ (e : AgentEvent). e.seq) v.events _
      ∙ (ap (λ (xs : List ℕ). xs ++ (a.seq + 1) ∷ []) v.numbered ∙ one_more a.seq);
  together =
      subst (λ (xs : List AgentEvent). Perm xs (v.events ++ ev ∷ []))
        (append_assoc a.sent (a.lost ++ a.unsent) (ev ∷ [])
          ∙ ap (λ (xs : List AgentEvent). a.sent ++ xs) (append_assoc a.lost a.unsent (ev ∷ [])))
        (Perm.append_right (ev ∷ []) v.together);
}
  where
    ev : AgentEvent
    ev = record { job_id = id; seq = a.seq + 1; body = body }

    one_more : (n : ℕ) → range_from 1 n ++ (n + 1) ∷ [] ≡ range_from 1 (n + 1)
    one_more n =
        ap (λ (x : ℕ). range_from 1 n ++ x ∷ []) {x = n + 1} {y = 1 + n} (omega arith)
        ∙ (range_from-snoc 1 n ∙ ap (range_from 1) {x = suc n} (omega arith))

-- An event that leaves those on their way stays among all of them.
send-IsNumbered : (i : ℕ) (ok : Bool) (a : Agent) → IsNumbered a → IsNumbered (send i ok a)
unfolding send
send-IsNumbered i ok a v = by_pick ok (take_at i a.unsent) (take_at-Split i a.unsent)
  where
    All_ : List AgentEvent → Type 0
    All_ xs = Perm xs v.events

    pulled :
        (ev : AgentEvent) (rest : List AgentEvent)
        → Split a.unsent ev rest
        → Perm (ev ∷ rest) a.unsent
    pulled ev rest p =
        subst (λ (xs : List AgentEvent). Perm (ev ∷ rest) xs) (sym p.whole)
          (subst (λ (xs : List AgentEvent). Perm (ev ∷ xs) (p.before ++ ev ∷ p.after))
            (sym p.others) (Perm.symm (perm_middle p.before p.after)))

    is_sent :
        (ev : AgentEvent) (rest : List AgentEvent)
        → Split a.unsent ev rest
        → Perm ((a.sent ++ ev ∷ []) ++ (a.lost ++ rest)) v.events
    is_sent ev rest p = subst All_ (sym (append_assoc a.sent (ev ∷ []) (a.lost ++ rest))) (
        Perm.trans
          (Perm.append_left a.sent (
            Perm.trans (Perm.symm (perm_middle a.lost rest))
              (Perm.append_left a.lost (pulled ev rest p))))
          v.together)

    is_lost :
        (ev : AgentEvent) (rest : List AgentEvent)
        → Split a.unsent ev rest
        → Perm (a.sent ++ ((a.lost ++ ev ∷ []) ++ rest)) v.events
    is_lost ev rest p =
        subst (λ (xs : List AgentEvent). Perm (a.sent ++ xs) v.events)
          (sym (append_assoc a.lost (ev ∷ []) rest))
          (Perm.trans (Perm.append_left a.sent (Perm.append_left a.lost (pulled ev rest p)))
            v.together)

    by_pick :
        (b : Bool) (o : Option (AgentEvent × List AgentEvent))
        → ((ev : AgentEvent) (rest : List AgentEvent)
            → o ≡ some (ev, rest)
            → Split a.unsent ev rest)
        → IsNumbered (send_found b a o)
    by_pick b none k = v
    by_pick true (some (ev, rest)) k = record {
      events = v.events;
      numbered = v.numbered;
      together = is_sent ev rest (k ev rest refl);
    }
    by_pick false (some (ev, rest)) k = record {
      events = v.events;
      numbered = v.numbered;
      together = is_lost ev rest (k ev rest refl);
    }

begin_job-IsNumbered : (job : StartJob) (a : Agent) → IsNumbered a → IsNumbered (begin_job job a)
unfolding begin_job send_error
begin_job-IsNumbered job a v = by_limit (leb a.max_jobs (count a)) job.spec
  where
    error_at : (id : Text) (body : Body) → IsNumbered (number_event id body a)
    error_at id body = number_event-IsNumbered id body a v

    by_limit :
        (b : Bool) (spec : StartSpec)
        → IsNumbered (
            if b
            then send_error job.job_id code_limit (codes "agent at job limit") a
            else begin_spec job spec a)
    by_limit true spec = error_at job.job_id _
    by_limit false start_none = error_at job.job_id _
    by_limit false start_dns = record {
      events = v.events;
      numbered = v.numbered;
      together = v.together;
    }
    by_limit false (start_trace t) = record {
      events = v.events;
      numbered = v.numbered;
      together = v.together;
    }
    by_limit false (start_sip s) = record {
      events = v.events;
      numbered = v.numbered;
      together = v.together;
    }

add-IsNumbered : (id : Text) (a : Agent) → IsNumbered a → IsNumbered (add id a).1
unfolding add
add-IsNumbered id a v = record { events = v.events; numbered = v.numbered; together = v.together }

register_spec-IsNumbered :
    (failure : Option Text) (id : Text) (spec : StartSpec) (a : Agent)
    → IsNumbered a
    → IsNumbered (register_spec failure id spec a)
unfolding send_error
register_spec-IsNumbered failure id start_none a v = v
register_spec-IsNumbered failure id start_dns a v = add-IsNumbered id a v
register_spec-IsNumbered none id (start_trace t) a v = add-IsNumbered id a v
register_spec-IsNumbered (some message) id (start_trace t) a v = number_event-IsNumbered id _ a v
register_spec-IsNumbered none id (start_sip s) a v = add-IsNumbered id a v
register_spec-IsNumbered (some message) id (start_sip s) a v = number_event-IsNumbered id _ a v

register_job-IsNumbered :
    (i : ℕ) (failure : Option Text) (a : Agent)
    → IsNumbered a
    → IsNumbered (register_job i failure a)
unfolding register_job
register_job-IsNumbered i failure a v = by_pick (take_at i a.starting)
  where
    by_pick : (o : Option (StartJob × List StartJob)) → IsNumbered (register_found failure a o)
    by_pick none = v
    by_pick (some (job, rest)) =
        register_spec-IsNumbered failure job.job_id job.spec (record a { starting = rest })
          (record { events = v.events; numbered = v.numbered; together = v.together })

step-IsNumbered : (s : Step) (a : Agent) → IsNumbered a → IsNumbered (step s a)
unfolding step send_error remove cancel cancel_all
step-IsNumbered (begins job) a v = begin_job-IsNumbered job a v
step-IsNumbered (registers i failure) a v = register_job-IsNumbered i failure a v
step-IsNumbered (reports id payload) a v = number_event-IsNumbered id _ a v
step-IsNumbered (fails id code message) a v = number_event-IsNumbered id _ a v
step-IsNumbered (sends i ok) a v = send-IsNumbered i ok a v
step-IsNumbered (ends id h) a v = record {
  events = v.events;
  numbered = v.numbered;
  together = v.together;
}
step-IsNumbered (cancels id) a v = record {
  events = v.events;
  numbered = v.numbered;
  together = v.together;
}
step-IsNumbered disconnects a v = record {
  events = v.events;
  numbered = v.numbered;
  together = v.together;
}

steps-from : (ss : List Step) (a : Agent) → IsNumbered a → IsNumbered (steps ss a)
steps-from [] a v = v
steps-from (s ∷ ss) a v = steps-from ss (step s a) (step-IsNumbered s a v)

-- Whatever an agent goes through, with jobs that start and events that are sent in any order, the events that were
-- sent, those that the stream did not take and those still on their way have the numbers 1 to the counter, each once.
pub steps-IsNumbered : (max_jobs : ℕ) (ss : List Step) → IsNumbered (steps ss (new_agent max_jobs))
unfolding new_agent
steps-IsNumbered max_jobs ss =
    steps-from ss (new_agent max_jobs)
      (record { events = []; numbered = refl; together = Perm.refl [] })

-- A job that takes an id over from an older job is registered under it, stays so when the older one
-- ends, and is gone when it ends itself.
pub remove-add :
    (id : Text) (h : ℕ) (a : Agent)
    → h < a.handles
    → (lookup id (add id a).1.jobs ≡ some (add id a).0)
      × (remove id h (add id a).1 ≡ (add id a).1)
      × (lookup id (remove id (add id a).0 (add id a).1).jobs ≡ none)
unfolding add remove
remove-add id h a old =
    let found = lookup-insert_self id a.handles a.jobs in
    let other : (a.handles == h) ≡ false = ground (arith, old) in
    let same : (a.handles == a.handles) ≡ true = ground arith in
    (
      found,
      rw (found, other) refl,
      rw (found, same) (lookup-delete id id (insert id a.handles a.jobs) ∙ rw (=?_refl id) refl),
    )
