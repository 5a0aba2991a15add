-- ===== src/Trace/Session/Endings.antt =====
-- How runs of internal/trace/session.go end.
use prober.Prelude.{
  ℕ, ◌≡◌, refl, ◌⊎◌, inl, inr, true, Bool-cases, if◌then◌else◌, ◌==◌, Option, none, some, List, [],
  ◌∷◌,
}
use prober.Trace.Spec.{Spec, icmp, normalize, ok as accepted}
use prober.Trace.Spec.Bounds.{normalize-IsEffective}
use prober.Trace.Session.State.{Session, failed, emit, new_session}
use prober.Trace.Session.Sending.{Outcome}
use prober.Trace.Session.Loop.{
  Turn, Status, running, returned, errored, crashed, run_turns, begin_run, run,
}
use prober.Trace.Session.Events.{Transcript, IsComplete, Good, run_turns-Good, begin_run-Phase}

-- How an ICMP run ends that is given no identifier: it never starts.
abbrev pub Unallocated : Option ℕ → Spec → Session → Type 0
Unallocated alloc spec s =
    (alloc ≡ none) × (spec.protocol == icmp ≡ true) × (s.emitted ≡ failed ∷ [])

-- What a status promises: a run that returned is complete, one that ended with an error has a
-- transcript that ends so, or was given no identifier, and no run crashes.
abbrev pub Ends : Option ℕ → Spec → Status → Type 0
Ends alloc spec (running s) = s.spec ≡ spec
Ends alloc spec (returned s) = IsComplete spec s
Ends alloc spec (errored s) =
    ((n : ℕ) × Transcript s.spec failed n s.emitted) ⊎ Unallocated alloc spec s
Ends alloc spec crashed = ⊥

Good-Ends : (alloc : Option ℕ) (spec : Spec) (st : Status) → Good spec st → Ends alloc spec st
Good-Ends alloc spec (running s) h = h.1
Good-Ends alloc spec (returned s) h = h
Good-Ends alloc spec (errored s) h = inl h
Good-Ends alloc spec crashed h = h

-- A run of an accepted spec that has its identifier.
begun-Good :
    (wire : ℕ → Outcome) (id now : ℕ) (raw spec : Spec) (ts : List Turn)
    → normalize raw ≡ accepted spec
    → Good spec (run_turns wire ts (running (begin_run now id spec)))
begun-Good wire id now raw spec ts h =
    run_turns-Good wire spec ts _
      (begin_run-Phase now id spec (normalize-IsEffective raw spec h), unfold begin_run in refl)

-- A run of an accepted spec never panics, whatever the identifier that it is given, the sends, replies, clock
-- readings and wake-ups are. If it returned, its events are the start, the cycles 1 to n in order and one
-- `finished`, and n is the number of cycles asked for unless `finished` says cancelled. If it ended with an
-- error, they are the start, the cycles 1 to n in order and one `failed`; or it is an ICMP run that was given no
-- identifier, and `failed` is its only event.
pub run-Ends :
    (wire : ℕ → Outcome) (alloc : Option ℕ) (now : ℕ) (raw spec : Spec) (ts : List Turn)
    → normalize raw ≡ accepted spec
    → Ends alloc spec (run wire alloc now spec ts)
unfolding run
run-Ends wire (some id) now raw spec ts h =
    Good-Ends (some id) spec _
      (begun-Good wire (if spec.protocol == icmp then id else 0) now raw spec ts h)
run-Ends wire none now raw spec ts h = elim (Bool-cases (spec.protocol == icmp)) [
  | inl is_icmp ↦ rw is_icmp (inr (refl, is_icmp, unfold emit new_session in refl))
  | inr other ↦ rw other (Good-Ends none spec _ (begun-Good wire 0 now raw spec ts h))
]
