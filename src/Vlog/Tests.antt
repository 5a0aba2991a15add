-- ===== src/Vlog/Tests.antt =====
-- Four records through internal/vlog/client.go, in batches of at most two.
use prober.Prelude.{ℕ, ◌≡◌, refl, List, [], ◌∷◌, All, arith}
use prober.Vlog.{Step, writes, takes, ticks, Client, new_client, run, finish}
use prober.Vlog.Batches.{flat, accepted, IsBatch, finish-run}

abbrev steps : List (Step ℕ)
steps =
    writes 1 ∷ takes ∷ ticks ∷ ticks ∷ writes 2 ∷ writes 3 ∷ takes ∷ takes ∷ takes ∷ writes 4 ∷ []

abbrev finished : Client ℕ
finished = finish 2 (run 2 steps new_client)

batches : finished.posted ≡ (1 ∷ []) ∷ (2 ∷ 3 ∷ []) ∷ (4 ∷ []) ∷ []
unfolding finish run new_client
batches = refl

finish-run_example :
    All (IsBatch 2) finished.posted × (flat finished.posted ≡ accepted 2 steps new_client)
finish-run_example = finish-run 2 (omega arith) steps
