-- ===== src/Backend/Run/Completion.antt =====
-- When a run of internal/backend/run.go is done.
use prober.Prelude.{
  ℕ, ◌≡◌, refl, ap, sym, subst, map, ◌∙◌, Bool, true, false, ◌&&◌, ◌||◌, List, [], ◌∷◌,
  if◌then◌else◌, Bool-cases, inl, inr, All,
}
use prober.Prelude.Maps.{Text, Map, delete, text_eq, ◌=?◌}
use prober.Backend.Run.{
  JobEvent, Run, emit, check_done, on_event, on_events, is_empty, is_last, Dispatch, no_agent,
  started_job, send_failed, start_site, start_sites, start, new_run,
}

-- The run is marked as done exactly when no job of it is pending.
abbrev pub IsMarked : Run → Type 0
IsMarked r = r.done ≡ is_empty r.pending

empty-delete : (k : Text) (m : Map Text Bool) → is_empty m ≡ true → delete k m ≡ []
unfolding delete
empty-delete k [] h = refl
empty-delete k (e ∷ m) h = cc

-- What `check_done` leaves, of a run that is not marked without reason.
check_done-IsMarked :
    (now : ℕ) (r : Run) → (r.done ≡ true → is_empty r.pending ≡ true) → IsMarked (check_done now r)
unfolding check_done
check_done-IsMarked now r h = elim (Bool-cases r.done) [
  | inl t ↦ rw (t, h t)
  | inr f ↦ elim (Bool-cases (is_empty r.pending)) [ inl t ↦ rw (f, t) | inr g ↦ rw (f, g) ]
]

-- A case of `on_event`, by whether the event ends its job.
pub on_event-cases {ℓ} :
    (P : Run → Type ℓ) (now : ℕ) (ev : JobEvent) (r : Run)
    → (is_last ev.kind ≡ true
        → let s = emit ev r in
          P (check_done now (record s { pending = delete ev.job_id s.pending })))
    → (is_last ev.kind ≡ false → P (emit ev r))
    → P (on_event now ev r)
unfolding on_event
on_event-cases P now ev r ends goes =
    let s = emit ev r in
    let branch : Bool → Run = λ (b : Bool).
      if b then check_done now (record s { pending = delete ev.job_id s.pending }) else s in
    elim (Bool-cases (is_last ev.kind)) [
      | inl t ↦ subst (λ (b : Bool). P (branch b)) (sym t) (ends t)
      | inr f ↦ subst (λ (b : Bool). P (branch b)) (sym f) (goes f)
    ]

on_event-IsMarked : (now : ℕ) (ev : JobEvent) (r : Run) → IsMarked r → IsMarked (on_event now ev r)
unfolding emit
on_event-IsMarked now ev r h =
    on_event-cases IsMarked now ev r
      (λ t.
        let s = emit ev r in
        check_done-IsMarked now (record s { pending = delete ev.job_id s.pending })
          (λ d. ap is_empty (empty-delete ev.job_id r.pending (sym h ∙ d))))
      (λ f. h)

on_events-IsMarked : (evs : List (ℕ × JobEvent)) (r : Run) → IsMarked r → IsMarked (on_events evs r)
on_events-IsMarked [] r h = h
on_events-IsMarked ((now, ev) ∷ evs) r h =
    on_events-IsMarked evs (on_event now ev r) (on_event-IsMarked now ev r h)

start_site-done : (site : Text) (d : Dispatch) (r : Run) → (start_site site d r).done ≡ r.done
unfolding start_site emit
start_site-done site no_agent r = refl
start_site-done site started_job r = refl
start_site-done site (send_failed message) r = refl

start_sites-done : (ds : List (Text × Dispatch)) (r : Run) → (start_sites ds r).done ≡ r.done
start_sites-done [] r = refl
start_sites-done ((site, d) ∷ ds) r =
    start_sites-done ds (start_site site d r) ∙ start_site-done site d r

start-IsMarked : (now : ℕ) (id : Text) (ds : List (Text × Dispatch)) → IsMarked (start now id ds)
unfolding start new_run
start-IsMarked now id ds =
    let r = new_run id (map (λ (d : Text × Dispatch). d.0) ds) in
    check_done-IsMarked now (start_sites ds r)
      (λ t. let f : true ≡ false = sym t ∙ start_sites-done ds r in cc)

-- When every event of a run comes in after `Start` has returned, the run is done exactly when no job
-- of it is pending, whatever the events are.
pub on_events-start :
    (now : ℕ) (id : Text) (ds : List (Text × Dispatch)) (evs : List (ℕ × JobEvent))
    → let r = on_events evs (start now id ds) in (r.done ≡ is_empty r.pending)
on_events-start now id ds evs = on_events-IsMarked evs (start now id ds) (start-IsMarked now id ds)

-- Whether an event among these ends a job.
abbrev pub ends_job : Text → List (ℕ × JobEvent) → Bool
ends_job job [] = false
ends_job job ((now, ev) ∷ evs) = is_last ev.kind && (job =? ev.job_id) || ends_job job evs

abbrev pub Ends : List (ℕ × JobEvent) → Map Text Bool → Type 0
Ends evs = All (λ (e : Text × Bool). ends_job e.0 evs ≡ true)

or_of_false : (a b : Bool) → a ≡ false → (a || b) ≡ true → b ≡ true
or_of_false true b f h = cc
or_of_false false b f h = h

and_of_false : (a b : Bool) → b ≡ false → (a && b) ≡ false
and_of_false true b f = f
and_of_false false b f = refl

Ends-delete :
    (now : ℕ) (ev : JobEvent) (evs : List (ℕ × JobEvent)) (m : Map Text Bool)
    → Ends ((now, ev) ∷ evs) m
    → Ends evs (delete ev.job_id m)
unfolding delete
Ends-delete now ev evs [] h = tt
Ends-delete now ev evs ((job, b) ∷ m) h = elim (Bool-cases (job =? ev.job_id)) [
  | inl t ↦ rw t (Ends-delete now ev evs m h.1)
  | inr f ↦ rw f (
    or_of_false _ (ends_job job evs) (and_of_false (is_last ev.kind) _ f) h.0,
    Ends-delete now ev evs m h.1,
  )
]

Ends-rest :
    (now : ℕ) (ev : JobEvent) (evs : List (ℕ × JobEvent)) (m : Map Text Bool)
    → is_last ev.kind ≡ false
    → Ends ((now, ev) ∷ evs) m
    → Ends evs m
Ends-rest now ev evs [] f h = tt
Ends-rest now ev evs ((job, b) ∷ m) f h = (
  or_of_false _ (ends_job job evs) (ap (λ (c : Bool). c && (job =? ev.job_id)) f) h.0,
  Ends-rest now ev evs m f h.1,
)

on_event-Ends :
    (now : ℕ) (ev : JobEvent) (evs : List (ℕ × JobEvent)) (r : Run)
    → Ends ((now, ev) ∷ evs) r.pending
    → Ends evs (on_event now ev r).pending
unfolding check_done emit
on_event-Ends now ev evs r e =
    on_event-cases (λ s. Ends evs s.pending) now ev r (λ t. Ends-delete now ev evs r.pending e)
      (λ f. Ends-rest now ev evs r.pending f e)

on_events-done :
    (evs : List (ℕ × JobEvent)) (r : Run)
    → IsMarked r
    → Ends evs r.pending
    → (on_events evs r).done ≡ true
on_events-done [] r h e = h ∙ none_left r.pending e
  where
    none_left : (m : Map Text Bool) → Ends [] m → is_empty m ≡ true
    none_left [] e = refl
    none_left ((job, b) ∷ m) e = cc
on_events-done ((now, ev) ∷ evs) r h e =
    on_events-done evs (on_event now ev r) (on_event-IsMarked now ev r h)
      (on_event-Ends now ev evs r e)

-- When `Start` has returned, and each job that it left pending then has its last event, the run is
-- done, whatever other events come in between.
pub on_events-start-done :
    (now : ℕ) (id : Text) (ds : List (Text × Dispatch)) (evs : List (ℕ × JobEvent))
    → Ends evs (start now id ds).pending
    → (on_events evs (start now id ds)).done ≡ true
on_events-start-done now id ds evs e =
    on_events-done evs (start now id ds) (start-IsMarked now id ds) e
