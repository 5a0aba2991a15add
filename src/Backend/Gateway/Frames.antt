-- ===== src/Backend/Gateway/Frames.antt =====
-- Sequences of the operations of internal/backend/gateway.go, and what each leaves as it was.
use prober.Prelude.{
  ℕ, ◌≡◌, ◌≢◌, refl, ap, ◌∙◌, Bool, true, false, List, [], ◌∷◌, ◌++◌, Option, none, some,
  if◌then◌else◌, Bool-cases, inl, inr, get_elem?,
}
use prober.Prelude.Maps.{Text, Map, lookup, insert, text_eq, ◌=?◌, lookup-insert}
use prober.Backend.Registry.{MonitorRegistry}
use prober.Backend.Run.{JobEvent}
use prober.Backend.Gateway.{
  Gateway, Conn, Routed, to_sink, to_monitors, Dispatched, not_connected, dispatched, send_failed,
  start_job, send, update_conn, route, end_job, add_agent, remove_agent, ping, on_pong, push_one,
  push_each, push_assignments, set_monitoring, cancel_job, send_cancel, dispatch_to,
}

-- What can happen to a gateway.
pub data Step : Type 0 where
  connects : Conn → Step
  leaves : Text → ℕ → Step
  pings : Bool → ℕ → ℕ → Step
  pongs : ℕ → ℕ → ℕ → Step
  watches : MonitorRegistry → Step
  pushes : (ℕ → Bool) → Step
  routes : Text → JobEvent → Step
  starts : Bool → Text → Text → ℕ → Step
  cancels : Bool → Text → Text → Step
  ends : Text → Step

abbrev pub left_by : Gateway → Dispatched → Gateway
left_by g not_connected = g
left_by g (dispatched s) = s
left_by g (send_failed s) = s

abbrev pub step : Step → Gateway → Gateway
step (connects c) g = add_agent c g
step (leaves site ptr) g = remove_agent site ptr g
step (pings works now ptr) g = ping works now ptr g
step (pongs now nonce ptr) g = on_pong now nonce ptr g
step (watches r) g = set_monitoring r g
step (pushes works) g = push_assignments works g
step (routes site ev) g = route site ev g
step (starts works site job sink) g = left_by g (start_job works site job sink g)
step (cancels works site job) g = cancel_job works site job g
step (ends job) g = end_job job g

abbrev pub steps : List Step → Gateway → Gateway
steps [] g = g
steps (s ∷ ss) g = steps ss (step s g)

-- None of these starts a job under this id, and none ends it if it has a sink.
abbrev pub LeavesJob : Text → Option ℕ → List Step → Type 0
LeavesJob job found [] = Unit
LeavesJob job found (starts works site j sink ∷ ss) = (j ≢ job) × LeavesJob job found ss
LeavesJob job none (ends j ∷ ss) = LeavesJob job none ss
LeavesJob job (some sink) (ends j ∷ ss) = (j ≢ job) × LeavesJob job (some sink) ss
LeavesJob job found (connects c ∷ ss) = LeavesJob job found ss
LeavesJob job found (leaves site ptr ∷ ss) = LeavesJob job found ss
LeavesJob job found (pings works now ptr ∷ ss) = LeavesJob job found ss
LeavesJob job found (pongs now nonce ptr ∷ ss) = LeavesJob job found ss
LeavesJob job found (watches r ∷ ss) = LeavesJob job found ss
LeavesJob job found (pushes works ∷ ss) = LeavesJob job found ss
LeavesJob job found (routes site ev ∷ ss) = LeavesJob job found ss
LeavesJob job found (cancels works site j ∷ ss) = LeavesJob job found ss

-- The events of the job that come in.
abbrev pub events_of : Text → List Step → List JobEvent
events_of job [] = []
events_of job (routes site ev ∷ ss) =
    let rest = events_of job ss in if ev.job_id =? job then ev ∷ rest else rest
events_of job (s ∷ ss) = events_of job ss

-- What reached a sink of the events of the job, in order.
abbrev pub reached : Text → List Routed → List Routed
reached job [] = []
reached job (to_sink k ev ∷ rs) =
    let rest = reached job rs in if ev.job_id =? job then to_sink k ev ∷ rest else rest
reached job (to_monitors site ev ∷ rs) = reached job rs

-- All of these, at the sink that the job has.
abbrev pub all_to : Option ℕ → List JobEvent → List Routed
all_to none evs = []
all_to (some sink) [] = []
all_to (some sink) (ev ∷ evs) = to_sink sink ev ∷ all_to (some sink) evs

pub reached-append :
    (job : Text) (xs ys : List Routed) → reached job (xs ++ ys) ≡ reached job xs ++ reached job ys
reached-append job [] ys = refl
reached-append job (to_monitors site ev ∷ xs) ys = reached-append job xs ys
reached-append job (to_sink k ev ∷ xs) ys = elim (Bool-cases (ev.job_id =? job)) [
  | inl t ↦ rw (t, reached-append job xs ys)
  | inr f ↦ rw (f, reached-append job xs ys)
]

-- A step that leaves the job's sink and everything routed.
pub record Framed (job : Text) (g h : Gateway) : Type 0 where
  pub same_sink : lookup job h.sinks ≡ lookup job g.sinks
  pub same_routed : h.routed ≡ g.routed

pub push_each-sinks :
    (works : ℕ → Bool) (r : MonitorRegistry) (agents : Map Text ℕ) (g : Gateway)
    → (job : Text) → Framed job g (push_each works r agents g)
unfolding update_conn
push_each-sinks works r [] g job = record { same_sink = refl; same_routed = refl }
push_each-sinks works r ((site, ptr) ∷ rest) g job =
    by_conn (works ptr) (get_elem? g.conns ptr) (λ h. push_each-sinks works r rest h job)
  where
    by_conn :
        (b : Bool) (o : Option Conn)
        → ((h : Gateway) → Framed job h (push_each works r rest h))
        → Framed job g (push_each works r rest (push_one b ptr r o g))
    by_conn b none k = k g
    by_conn true (some c) k =
        let f = k (push_one true ptr r (some c) g) in
        record { same_sink = f.same_sink; same_routed = f.same_routed }
    by_conn false (some c) k = k g

pub other_key : (j job : Text) → j ≢ job → (j =? job) ≡ false
other_key j job n = elim (Bool-cases (j =? job)) [
  | inl t ↦ absurd (n ((text_eq.beq_iff j job).0 t))
  | inr f ↦ f
]

pub start_job-Framed :
    (works : Bool) (site j : Text) (sink : ℕ) (g : Gateway) (job : Text)
    → j ≢ job
    → Framed job g (left_by g (start_job works site j sink g))
unfolding start_job send update_conn
start_job-Framed works site j sink g job n = by_site works (lookup site g.agents)
  where
    kept : lookup job (insert j sink g.sinks) ≡ lookup job g.sinks
    kept =
        lookup-insert j job sink g.sinks
        ∙ ap (λ (b : Bool). if b then some sink else lookup job g.sinks) (other_key j job n)

    by_site : (b : Bool) (o : Option ℕ) → Framed job g (left_by g (dispatch_to b j sink o g))
    by_site b none = record { same_sink = refl; same_routed = refl }
    by_site true (some ptr) = record { same_sink = kept; same_routed = refl }
    by_site false (some ptr) = record { same_sink = kept; same_routed = refl }

pub cancel_job-Framed :
    (works : Bool) (site j : Text) (g : Gateway) (job : Text)
    → Framed job g (cancel_job works site j g)
unfolding cancel_job send update_conn
cancel_job-Framed works site j g job = by_site works (lookup site g.agents)
  where
    by_site : (b : Bool) (o : Option ℕ) → Framed job g (send_cancel b j o g)
    by_site b none = record { same_sink = refl; same_routed = refl }
    by_site true (some ptr) = record { same_sink = refl; same_routed = refl }
    by_site false (some ptr) = record { same_sink = refl; same_routed = refl }

pub ping-Framed :
    (works : Bool) (now ptr : ℕ) (g : Gateway) (job : Text) → Framed job g (ping works now ptr g)
unfolding ping send update_conn
ping-Framed true now ptr g job = record { same_sink = refl; same_routed = refl }
ping-Framed false now ptr g job = record { same_sink = refl; same_routed = refl }

pub push_assignments-Framed :
    (works : ℕ → Bool) (g : Gateway) (job : Text) → Framed job g (push_assignments works g)
unfolding push_assignments
push_assignments-Framed works g job = by_registry g.registry
  where
    by_registry :
        (o : Option MonitorRegistry)
        → Framed job g (elim o [ none ↦ g | some r ↦ push_each works r g.agents g ])
    by_registry none = record { same_sink = refl; same_routed = refl }
    by_registry (some r) = push_each-sinks works r g.agents g job
