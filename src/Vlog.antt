-- ===== src/Vlog.antt =====
-- internal/vlog/client.go: the queue of log records and the batches that they are posted in. `posted` has the
-- batches handed to `post` that are not empty, the oldest first; whether a post succeeds is not modelled. The
-- client is enabled.
pub mod Batches
mod Tests
use prober.Prelude.{
  ℕ, ◌+◌, Bool, true, false, List, [], ◌∷◌, ◌++◌, length, ltb, leb, ◌==◌, if◌then◌else◌,
}
use prober.Prelude.Int.{ℤ, pos, negsuc}

abbrev pub default_batch_max : ℕ
default_batch_max = 500

abbrev pub queue_depth : ℕ
queue_depth = 4096

-- `BatchMax`, with its default.
unfoldable pub batch_max : ℤ → ℕ
batch_max (pos n) = if n == 0 then default_batch_max else n
batch_max (negsuc n) = default_batch_max

pub record Client {ℓ} (A : Type ℓ) : Type ℓ where
  pub queue : List A
  pub batch : List A
  pub posted : List (List A)
  pub dropped : ℕ

module _ {ℓ} {A : Type ℓ} where
  unfoldable pub new_client : Client A
  new_client = record { queue = []; batch = []; posted = []; dropped = 0 }

  unfoldable pub write : A → Client A → Client A
  write r c =
      if ltb (length c.queue) queue_depth
      then record c { queue = c.queue ++ r ∷ [] }
      else record c { dropped = c.dropped + 1 }

  abbrev pub post : List A → List (List A) → List (List A)
  post [] posted = posted
  post (r ∷ batch) posted = posted ++ (r ∷ batch) ∷ []

  unfoldable pub flush : Client A → Client A
  flush c = record c { posted = post c.batch c.posted; batch = [] }

  -- One round of the loop that receives a record, if there is one.
  abbrev pub taken : ℕ → List A → Client A → Client A
  taken max [] c = c
  taken max (r ∷ queue) c =
      let d = record c { queue = queue; batch = c.batch ++ r ∷ [] } in
      if leb max (length d.batch) then flush d else d

  unfoldable pub take_one : ℕ → Client A → Client A
  unfolding flush
  take_one max c = taken max c.queue c

  -- The loop after the context is cancelled, over what is in the queue then.
  unfoldable pub drain : ℕ → List A → List A → List (List A) → List (List A)
  drain max [] batch posted = post batch posted
  drain max (r ∷ queue) batch posted =
      let b = batch ++ r ∷ [] in
      if leb max (length b) then drain max queue [] (post b posted) else drain max queue b posted

  unfoldable pub finish : ℕ → Client A → Client A
  unfolding drain
  finish max c = record c { queue = []; batch = []; posted = drain max c.queue c.batch c.posted }

-- What happens before the context is cancelled: a record is written, the loop receives one, or the ticker fires.
pub data Step {ℓ} (A : Type ℓ) : Type ℓ where
  writes : A → Step A
  takes ticks : Step A

module _ {ℓ} {A : Type ℓ} where
  unfoldable pub act : ℕ → Step A → Client A → Client A
  unfolding write take_one flush
  act max (writes r) c = write r c
  act max takes c = take_one max c
  act max ticks c = flush c

  unfoldable pub run : ℕ → List (Step A) → Client A → Client A
  unfolding act
  run max [] c = c
  run max (step ∷ steps) c = run max steps (act max step c)
