-- ===== src/Agent/Scheduler/Schedule.antt =====
-- What internal/agent/scheduler.go keeps running.
use prober.Prelude.{
  ℕ, ◌≡◌, refl, sym, ap, ◌∙◌, Bool, true, false, not, ◌||◌, ◌&&◌, subst, List, [], ◌∷◌, ◌++◌, map,
  Option, none, some, arith, ◌==◌, if◌then◌else◌, Bool-cases, inl, inr, All, All-append,
}
use mathlib.Core.List.{map-append, append_assoc, append-nil}
use prober.Prelude.Maps.{Map, delete, nat_eq}
use prober.Backend.Registry.{Monitor, Assignment}
use prober.Agent.Scheduler.{
  Scheduler, new_scheduler, stop_all, stop_locked, start_monitor, start_monitors, apply,
}

abbrev pub monitors_running : Scheduler → List Monitor
monitors_running s = map (λ (e : ℕ × Monitor). e.1) s.running

abbrev is_among : ℕ → List ℕ → Bool
is_among x [] = false
is_among x (c ∷ cs) = x == c || is_among x cs

abbrev Covers : List ℕ → Map ℕ Monitor → Type 0
Covers cs = All (λ (e : ℕ × Monitor). is_among e.0 cs ≡ true)

-- `stopLocked` can stop every goroutine that runs.
abbrev IsTracked : Scheduler → Type 0
IsTracked s = Covers s.cancels s.running

delete-Covers :
    (c : ℕ) (cs : List ℕ) (m : Map ℕ Monitor) → Covers (c ∷ cs) m → Covers cs (delete c m)
unfolding delete
delete-Covers c cs [] h = tt
delete-Covers c cs ((j, x) ∷ m) h = elim (Bool-cases (j == c)) [
  | inl t ↦ rw t (delete-Covers c cs m h.1)
  | inr f ↦ rw f (or_of_false (j == c) (is_among j cs) f h.0, delete-Covers c cs m h.1)
]
  where
    or_of_false : (a b : Bool) → a ≡ false → (a || b) ≡ true → b ≡ true
    or_of_false true b e k = cc
    or_of_false false b e k = k

stop_all-Covers : (cs : List ℕ) (m : Map ℕ Monitor) → Covers cs m → stop_all cs m ≡ []
stop_all-Covers [] [] h = refl
stop_all-Covers [] (e ∷ m) h = cc
stop_all-Covers (c ∷ cs) m h = stop_all-Covers cs (delete c m) (delete-Covers c cs m h)

is_among-append :
    (x : ℕ) (cs ds : List ℕ) → is_among x (cs ++ ds) ≡ (is_among x cs || is_among x ds)
is_among-append x [] ds = refl
is_among-append x (c ∷ cs) ds = rw (is_among-append x cs ds) (reassociate (x == c) (is_among x cs))
  where
    reassociate : (a b : Bool) → (a || (b || is_among x ds)) ≡ ((a || b) || is_among x ds)
    reassociate true b = refl
    reassociate false b = refl

Covers-more : (cs ds : List ℕ) (m : Map ℕ Monitor) → Covers cs m → Covers (cs ++ ds) m
Covers-more cs ds [] h = tt
Covers-more cs ds ((j, x) ∷ m) h =
    (is_among-append j cs ds ∙ ap (λ (b : Bool). b || is_among j ds) h.0, Covers-more cs ds m h.1)

start_monitor-IsTracked :
    (m : Monitor) (s : Scheduler) → IsTracked s → IsTracked (start_monitor m s)
start_monitor-IsTracked m s h =
    All-append (λ (e : ℕ × Monitor). is_among e.0 (s.cancels ++ s.contexts ∷ []) ≡ true) s.running
      ((s.contexts, m) ∷ []) (Covers-more s.cancels (s.contexts ∷ []) s.running h) (last, tt)
  where
    last : is_among s.contexts (s.cancels ++ s.contexts ∷ []) ≡ true
    last =
        let q : (s.contexts == s.contexts) ≡ true = ground arith in
        is_among-append s.contexts s.cancels (s.contexts ∷ [])
        ∙ (rw q (or_true (is_among s.contexts s.cancels)))
      where
        or_true : (a : Bool) → (a || true) ≡ true
        or_true true = refl
        or_true false = refl

start_monitors-IsTracked :
    (ms : List Monitor) (s : Scheduler) → IsTracked s → IsTracked (start_monitors ms s)
start_monitors-IsTracked [] s h = h
start_monitors-IsTracked (m ∷ ms) s h =
    start_monitors-IsTracked ms (start_monitor m s) (start_monitor-IsTracked m s h)

monitors_running-start_monitors :
    (ms : List Monitor) (s : Scheduler)
    → monitors_running (start_monitors ms s) ≡ monitors_running s ++ ms
monitors_running-start_monitors [] s = sym (append-nil (monitors_running s))
monitors_running-start_monitors (m ∷ ms) s =
    monitors_running-start_monitors ms (start_monitor m s)
    ∙ (ap (λ (xs : List Monitor). xs ++ ms)
          (map-append (λ (e : ℕ × Monitor). e.1) s.running ((s.contexts, m) ∷ []))
        ∙ append_assoc (monitors_running s) (m ∷ []) ms)

-- Whether `apply` takes an assignment for the one that it has.
abbrev pub is_same : Assignment → Scheduler → Bool
is_same a s = not (a.version == 0) && a.version == s.version

replaced-IsTracked :
    (a : Assignment) (s : Scheduler)
    → IsTracked s
    → IsTracked (record (stop_locked s) { version = a.version })
unfolding stop_locked
replaced-IsTracked a s h =
    subst (λ (m : Map ℕ Monitor). Covers [] m) (sym (stop_all-Covers s.cancels s.running h)) tt

apply-IsTracked : (a : Option Assignment) (s : Scheduler) → IsTracked s → IsTracked (apply a s)
unfolding apply
apply-IsTracked none s h = h
apply-IsTracked (some a) s h = elim (Bool-cases (is_same a s)) [
  | inl t ↦ rw t h
  | inr f ↦ rw f (start_monitors-IsTracked a.monitors _ (replaced-IsTracked a s h))
]

abbrev pub applies : List (Option Assignment) → Scheduler → Scheduler
applies [] s = s
applies (a ∷ rest) s = applies rest (apply a s)

applies-IsTracked :
    (xs : List (Option Assignment)) (s : Scheduler) → IsTracked s → IsTracked (applies xs s)
applies-IsTracked [] s h = h
applies-IsTracked (a ∷ rest) s h = applies-IsTracked rest (apply a s) (apply-IsTracked a s h)

replaced-running :
    (a : Assignment) (s : Scheduler)
    → IsTracked s
    → monitors_running (start_monitors a.monitors (record (stop_locked s) { version = a.version }))
      ≡ a.monitors
unfolding stop_locked
replaced-running a s h =
    monitors_running-start_monitors a.monitors (record (stop_locked s) { version = a.version })
    ∙ ap (λ (m : Map ℕ Monitor). map (λ (e : ℕ × Monitor). e.1) m ++ a.monitors)
        (stop_all-Covers s.cancels s.running h)

-- After any assignments, one more leaves exactly its own monitors running, one goroutine each, in its
-- order, unless it has the version of the one before and that is not 0: then what runs stays.
pub apply-applies :
    (before : List (Option Assignment)) (a : Assignment)
    → let s = applies before new_scheduler in
      (monitors_running (apply (some a) s)
        ≡ (if is_same a s then monitors_running s else a.monitors))
unfolding apply
apply-applies before a =
    let s = applies before new_scheduler in
    elim (Bool-cases (is_same a s)) [
      | inl t ↦ rw t refl
      | inr f ↦ rw f (replaced-running a s tracked)
    ]
  where
    tracked : IsTracked (applies before new_scheduler)
    tracked = applies-IsTracked before new_scheduler (unfold new_scheduler in tt)
