-- ===== src/Vlog/Batches.antt =====
-- That internal/vlog/client.go posts what it has taken in, once and in order.
use prober.Prelude.{
  ℕ, ◌+◌, ◌≡◌, ◌≤◌, ◌<◌, refl, sym, ap, subst, ◌∙◌, ◌⊎◌, inl, inr, Bool, true, false, List, [], ◌∷◌,
  ◌++◌, length, length-append, ltb, leb, if◌then◌else◌, Bool-cases, All, All-append, arith,
}
use mathlib.Core.List.{append_assoc, append-nil}
use prober.Vlog.{
  Client, new_client, queue_depth, write, post, flush, taken, take_one, drain, finish, Step, writes,
  takes, ticks, act, run,
}

module _ {ℓ} {A : Type ℓ} where
  abbrev pub flat : List (List A) → List A
  flat [] = []
  flat (b ∷ bs) = b ++ flat bs

  -- The records of the steps that are not dropped, in order.
  abbrev pub added : Bool → A → List A → List A
  added room r later = if room then r ∷ later else later

  abbrev pub accepted : ℕ → List (Step A) → Client A → List A
  accepted max [] c = []
  accepted max (writes r ∷ steps) c =
      added (ltb (length c.queue) queue_depth) r (accepted max steps (act max (writes r) c))
  accepted max (takes ∷ steps) c = accepted max steps (act max takes c)
  accepted max (ticks ∷ steps) c = accepted max steps (act max ticks c)

  -- What has been taken in and is posted, in the batch or in the queue, in order.
  abbrev held : Client A → List A
  held c = flat c.posted ++ (c.batch ++ c.queue)

  flat-append : (xs ys : List (List A)) → flat (xs ++ ys) ≡ flat xs ++ flat ys
  flat-append [] ys = refl
  flat-append (b ∷ xs) ys =
      ap (λ (zs : List A). b ++ zs) (flat-append xs ys) ∙ sym (append_assoc b (flat xs) (flat ys))

  flat-post : (b : List A) (posted : List (List A)) → flat (post b posted) ≡ flat posted ++ b
  flat-post [] posted = sym (append-nil (flat posted))
  flat-post (r ∷ b) posted =
      flat-append posted ((r ∷ b) ∷ [])
      ∙ ap (λ (zs : List A). flat posted ++ zs) (append-nil (r ∷ b))

  flat-drain :
      (max : ℕ) (queue batch : List A) (posted : List (List A))
      → flat (drain max queue batch posted) ≡ flat posted ++ (batch ++ queue)
  unfolding drain
  flat-drain max [] batch posted =
      flat-post batch posted ∙ ap (λ (zs : List A). flat posted ++ zs) (sym (append-nil batch))
  flat-drain max (r ∷ queue) batch posted =
      by_size (leb max (length (batch ++ r ∷ [])))
        (flat-drain max queue [] (post (batch ++ r ∷ []) posted))
        (flat-drain max queue (batch ++ r ∷ []) posted)
    where
      b : List A
      b = batch ++ r ∷ []

      by_size :
          (c : Bool)
          → flat (drain max queue [] (post b posted)) ≡ flat (post b posted) ++ queue
          → flat (drain max queue b posted) ≡ flat posted ++ (b ++ queue)
          → flat (if c then drain max queue [] (post b posted) else drain max queue b posted)
            ≡ flat posted ++ (batch ++ r ∷ queue)
      by_size true e f =
          e
          ∙ (ap (λ (zs : List A). zs ++ queue) (flat-post b posted)
              ∙ (append_assoc (flat posted) b queue ∙ joined))
        where
          joined : flat posted ++ (b ++ queue) ≡ flat posted ++ (batch ++ r ∷ queue)
          joined = ap (λ (zs : List A). flat posted ++ zs) (append_assoc batch (r ∷ []) queue)
      by_size false e f =
          f ∙ ap (λ (zs : List A). flat posted ++ zs) (append_assoc batch (r ∷ []) queue)

  held-flush : (c : Client A) → held (flush c) ≡ held c
  unfolding flush
  held-flush c =
      ap (λ (zs : List A). zs ++ c.queue) (flat-post c.batch c.posted)
      ∙ append_assoc (flat c.posted) c.batch c.queue

  held-taken :
      (max : ℕ) (queue : List A) (c : Client A)
      → c.queue ≡ queue
      → held (taken max queue c) ≡ held c
  held-taken max [] c e = refl
  held-taken max (r ∷ queue) c e = by_size (leb max (length d.batch))
    where
      d : Client A
      d = record c { queue = queue; batch = c.batch ++ r ∷ [] }

      moved : held d ≡ held c
      moved =
          ap (λ (zs : List A). flat c.posted ++ zs)
            (append_assoc c.batch (r ∷ []) queue ∙ ap (λ (zs : List A). c.batch ++ zs) (sym e))

      by_size : (b : Bool) → held (if b then flush d else d) ≡ held c
      by_size true = held-flush d ∙ moved
      by_size false = moved

  run-accepted :
      (max : ℕ) (steps : List (Step A)) (c : Client A)
      → held (run max steps c) ≡ held c ++ accepted max steps c
  unfolding run write take_one
  run-accepted max [] c = sym (append-nil (held c))
  run-accepted max (writes r ∷ steps) c =
      run-accepted max steps (act max (writes r) c) ∙ after_write (ltb (length c.queue) queue_depth)
    where
      later : List A
      later = accepted max steps (write r c)

      kept : Client A
      kept = record c { queue = c.queue ++ r ∷ [] }

      lost : Client A
      lost = record c { dropped = c.dropped + 1 }

      after_write :
          (b : Bool) → held (if b then kept else lost) ++ later ≡ held c ++ added b r later
      after_write true =
          ap (λ (zs : List A). (flat c.posted ++ zs) ++ later)
            (sym (append_assoc c.batch c.queue (r ∷ [])))
          ∙ (ap (λ (zs : List A). zs ++ later)
                (sym (append_assoc (flat c.posted) (c.batch ++ c.queue) (r ∷ [])))
              ∙ append_assoc (held c) (r ∷ []) later)
      after_write false = refl
  run-accepted max (takes ∷ steps) c =
      run-accepted max steps (act max takes c)
      ∙ ap (λ (zs : List A). zs ++ accepted max steps (act max takes c))
          (held-taken max c.queue c refl)
  run-accepted max (ticks ∷ steps) c =
      run-accepted max steps (act max ticks c)
      ∙ ap (λ (zs : List A). zs ++ accepted max steps (act max ticks c)) (held-flush c)

-- A batch that is posted.
abbrev pub IsBatch {ℓ} : {A : Type ℓ} → ℕ → List A → Type 0
IsBatch max b = (1 ≤ length b) × (length b ≤ max)

module _ {ℓ} {A : Type ℓ} (max : ℕ) (positive : 1 ≤ max) where
  -- What is posted are batches, and the batch at hand has room.
  abbrev IsBatched : Client A → Type 0
  IsBatched c = All (IsBatch max) c.posted × (length c.batch < max)

  post-All :
      (b : List A) (posted : List (List A))
      → length b ≤ max
      → All (IsBatch max) posted
      → All (IsBatch max) (post b posted)
  post-All [] posted h k = k
  post-All (r ∷ b) posted h k =
      All-append (IsBatch max) posted ((r ∷ b) ∷ []) k ((omega arith, h), tt)

  flush-IsBatched :
      (c : Client A) → length c.batch ≤ max → All (IsBatch max) c.posted → IsBatched (flush c)
  unfolding flush
  flush-IsBatched c h k = (post-All c.batch c.posted h k, omega (arith, positive))

  longer : (batch : List A) (r : A) → length (batch ++ r ∷ []) ≡ length batch + 1
  longer batch r = length-append batch (r ∷ [])

  taken-IsBatched : (queue : List A) (c : Client A) → IsBatched c → IsBatched (taken max queue c)
  taken-IsBatched [] c h = h
  taken-IsBatched (r ∷ queue) c (k, small) = by_size (Bool-cases (leb max (length d.batch)))
    where
      d : Client A
      d = record c { queue = queue; batch = c.batch ++ r ∷ [] }

      by_size :
          (leb max (length d.batch) ≡ true) ⊎ (leb max (length d.batch) ≡ false)
          → IsBatched (if leb max (length d.batch) then flush d else d)
      by_size (inl t) =
          subst (λ (b : Bool). IsBatched (if b then flush d else d)) (sym t)
            (flush-IsBatched d (omega (arith, longer c.batch r, small)) k)
      by_size (inr f) =
          subst (λ (b : Bool). IsBatched (if b then flush d else d)) (sym f) (k, ground (arith, f))

  drain-All :
      (queue batch : List A) (posted : List (List A))
      → length batch < max
      → All (IsBatch max) posted
      → All (IsBatch max) (drain max queue batch posted)
  unfolding drain
  drain-All [] batch posted h k = post-All batch posted (omega (arith, h)) k
  drain-All (r ∷ queue) batch posted h k =
      by_size (Bool-cases (leb max (length b)))
        (drain-All queue [] (post b posted) (omega (arith, positive)) (post-All b posted fits k))
        (λ (small : length b < max). drain-All queue b posted small k)
    where
      b : List A
      b = batch ++ r ∷ []

      fits : length b ≤ max
      fits = omega (arith, longer batch r, h)

      by_size :
          (leb max (length b) ≡ true) ⊎ (leb max (length b) ≡ false)
          → All (IsBatch max) (drain max queue [] (post b posted))
          → (length b < max → All (IsBatch max) (drain max queue b posted))
          → All (IsBatch max) (
              if leb max (length b)
              then drain max queue [] (post b posted)
              else drain max queue b posted)
      by_size (inl t) x y =
          subst
            (λ (c : Bool).
              All (IsBatch max)
                (if c then drain max queue [] (post b posted) else drain max queue b posted))
            (sym t) x
      by_size (inr f) x y =
          subst
            (λ (c : Bool).
              All (IsBatch max)
                (if c then drain max queue [] (post b posted) else drain max queue b posted))
            (sym f) (y (ground (arith, f)))

  run-IsBatched : (steps : List (Step A)) (c : Client A) → IsBatched c → IsBatched (run max steps c)
  unfolding run take_one write
  run-IsBatched [] c h = h
  run-IsBatched (writes r ∷ steps) c h =
      run-IsBatched steps (write r c) (by_room (ltb (length c.queue) queue_depth))
    where
      by_room :
          (b : Bool)
          → IsBatched (
              if b
              then record c { queue = c.queue ++ r ∷ [] }
              else record c { dropped = c.dropped + 1 })
      by_room true = h
      by_room false = h
  run-IsBatched (takes ∷ steps) c h =
      run-IsBatched steps (take_one max c) (taken-IsBatched c.queue c h)
  run-IsBatched (ticks ∷ steps) c (k, small) =
      run-IsBatched steps (flush c) (flush-IsBatched c (omega (arith, small)) k)

  -- Whatever records are written, received and flushed before the context is cancelled, once the loop has returned
  -- the batches that it handed to `post` have at least one record and at most the maximum, and together are
  -- exactly the records that `Write` did not drop, each once and in order.
  pub finish-run :
      (steps : List (Step A))
      → All (IsBatch max) (finish max (run max steps new_client)).posted
        × (flat (finish max (run max steps new_client)).posted ≡ accepted max steps new_client)
  unfolding finish new_client
  finish-run steps =
      let c = run max steps new_client in
      let (k, small) = run-IsBatched steps new_client (tt, omega (arith, positive)) in
      (
        drain-All c.queue c.batch c.posted small k,
        flat-drain max c.queue c.batch c.posted ∙ run-accepted max steps new_client,
      )
