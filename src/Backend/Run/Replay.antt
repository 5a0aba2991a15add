-- ===== src/Backend/Run/Replay.antt =====
-- The events of internal/backend/run.go: numbered without a gap, so that a reader who subscribes
-- with the last number it has seen misses none.
use prober.Prelude.{
  ℕ, zero, suc, ◌+◌, ◌-◌, ◌≡◌, ◌≤◌, ◌<◌, refl, ap, ◌∙◌, true, List, [], ◌∷◌, ◌++◌, map, arith, ltb,
  range_from, range_from-snoc, Bool-cases, inl, inr,
}
use mathlib.Core.List.{map-append}
use prober.Prelude.Maps.{Text}
use prober.Backend.Run.Completion.{on_event-cases}
use prober.Backend.Run.{
  on_events, error, job_id_of, report_error, no_agent_message, start_sites, start, Dispatch,
  no_agent, started_job, send_failed, JobEvent, StreamEvent, Run, emit, after, subscribe, on_event,
  check_done, start_site, new_run,
}

abbrev pub seqs : List StreamEvent → List ℕ
seqs = map (λ (se : StreamEvent). se.seq)

-- The buffered events have the numbers 1 to `seq`, in order.
abbrev pub IsNumbered : Run → Type 0
IsNumbered r = seqs r.buffer ≡ range_from 1 r.seq

pub emit-IsNumbered : (ev : JobEvent) (r : Run) → IsNumbered r → IsNumbered (emit ev r)
unfolding emit
emit-IsNumbered ev r h =
    map-append (λ (se : StreamEvent). se.seq) r.buffer _
    ∙ (ap (λ (xs : List ℕ). xs ++ (r.seq + 1) ∷ []) h ∙ numbered r.seq)
  where
    numbered : (n : ℕ) → range_from 1 n ++ (n + 1) ∷ [] ≡ range_from 1 (n + 1)
    numbered n =
        ap (λ (x : ℕ). range_from 1 n ++ x ∷ []) (omega arith)
        ∙ (range_from-snoc 1 n ∙ ap (range_from 1) {x = suc n} (omega arith))

-- `cc` reads the injectivity of a cell off an equation.
cell-head : {x y : ℕ} {xs ys : List ℕ} → x ∷ xs ≡ y ∷ ys → x ≡ y
cell-head h = cc

cell-tail : {x y : ℕ} {xs ys : List ℕ} → x ∷ xs ≡ y ∷ ys → xs ≡ ys
cell-tail h = cc

after-all :
    (n a k : ℕ) (ses : List StreamEvent) → n < a → seqs ses ≡ range_from a k → after n ses ≡ ses
after-all n a k [] l h = refl
after-all n a zero (se ∷ ses) l h = cc
after-all n a (suc k) (se ∷ ses) l h =
    let q : se.seq ≡ a = cell-head h in
    let t : ltb n se.seq ≡ true = ground (arith, q) in
    rw t (rw (after-all n (suc a) k ses (omega arith) (cell-tail h)))

seqs-after :
    (n a k : ℕ) (ses : List StreamEvent)
    → a ≤ suc n
    → seqs ses ≡ range_from a k
    → seqs (after n ses) ≡ range_from (suc n) (a + k - suc n)
seqs-after n a zero [] l h = ap (range_from (suc n)) {x = 0} {y = a + 0 - suc n} (omega arith)
seqs-after n a (suc k) [] l h = cc
seqs-after n a zero (se ∷ ses) l h = cc
seqs-after n a (suc k) (se ∷ ses) l h =
    let q : se.seq ≡ a = cell-head h in
    elim (Bool-cases (ltb n se.seq)) [
      | inl t ↦
          let e : a ≡ suc n = ground (arith, q, t) in
          rw (t, after-all n (suc a) k ses (omega arith) (cell-tail h))
            (h
              ∙ (ap (λ (x : ℕ). range_from x (suc k)) e
                  ∙ ap (range_from (suc n)) {x = suc k} {y = a + suc k - suc n} (omega arith)))
      | inr f ↦ rw f (
          seqs-after n (suc a) k ses (ground (arith, q, f)) (cell-tail h)
          ∙ ap (range_from (suc n)) {x = suc a + k - suc n} {y = a + suc k - suc n} (omega arith))
    ]

subscribe-backlog :
    (id n : ℕ) (r : Run) → IsNumbered r → seqs (subscribe id n r).0 ≡ range_from (suc n) (r.seq - n)
unfolding subscribe
subscribe-backlog id n r h =
    seqs-after n 1 r.seq r.buffer (omega arith) h ∙ ap (range_from (suc n)) (omega arith)

on_event-IsNumbered :
    (now : ℕ) (ev : JobEvent) (r : Run) → IsNumbered r → IsNumbered (on_event now ev r)
unfolding check_done
on_event-IsNumbered now ev r h =
    on_event-cases IsNumbered now ev r (λ t. emit-IsNumbered ev r h) (λ f. emit-IsNumbered ev r h)

on_events-IsNumbered :
    (evs : List (ℕ × JobEvent)) (r : Run) → IsNumbered r → IsNumbered (on_events evs r)
on_events-IsNumbered [] r h = h
on_events-IsNumbered ((now, ev) ∷ evs) r h =
    on_events-IsNumbered evs (on_event now ev r) (on_event-IsNumbered now ev r h)

report_error-IsNumbered :
    (job message : Text) (r : Run) → IsNumbered r → IsNumbered (report_error job message r)
report_error-IsNumbered job message r h =
    emit-IsNumbered (record { job_id = job; kind = error; payload = message }) r h

start_site-IsNumbered :
    (site : Text) (d : Dispatch) (r : Run) → IsNumbered r → IsNumbered (start_site site d r)
unfolding start_site
start_site-IsNumbered site no_agent r h =
    report_error-IsNumbered (job_id_of r.id site) (no_agent_message site) r h
start_site-IsNumbered site started_job r h = h
start_site-IsNumbered site (send_failed message) r h =
    report_error-IsNumbered (job_id_of r.id site) message r h

start_sites-IsNumbered :
    (ds : List (Text × Dispatch)) (r : Run) → IsNumbered r → IsNumbered (start_sites ds r)
start_sites-IsNumbered [] r h = h
start_sites-IsNumbered ((site, d) ∷ ds) r h =
    start_sites-IsNumbered ds (start_site site d r) (start_site-IsNumbered site d r h)

start-IsNumbered :
    (now : ℕ) (id : Text) (ds : List (Text × Dispatch)) → IsNumbered (start now id ds)
unfolding start check_done new_run
start-IsNumbered now id ds = start_sites-IsNumbered ds _ refl

-- Whatever `Start` meets and whatever events come in after it, a reader that subscribes having seen
-- event `n` is given the events numbered `n + 1`, `n + 2`, up to the last, in this order.
pub on_events-backlog :
    (now : ℕ) (id : Text) (ds : List (Text × Dispatch)) (evs : List (ℕ × JobEvent)) (reader n : ℕ)
    → let r = on_events evs (start now id ds) in
      (seqs (subscribe reader n r).0 ≡ range_from (suc n) (r.seq - n))
on_events-backlog now id ds evs reader n =
    subscribe-backlog reader n (on_events evs (start now id ds))
      (on_events-IsNumbered evs (start now id ds) (start-IsNumbered now id ds))
