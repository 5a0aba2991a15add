-- ===== src/Backend/Sink/Channels.antt =====
-- One subscriber's channel among those of internal/backend/monitorsink.go, when another subscribes, cancels
-- or takes an event, and when it takes one itself.
use prober.Prelude.{
  ℕ, ◌≡◌, ◌≢◌, refl, sym, ap, subst, ◌∙◌, ◌⊎◌, inl, inr, Bool, true, false, List, [], ◌∷◌, some,
  ◌==◌, ==_iff, if◌then◌else◌, Bool-cases,
}
use prober.Prelude.Maps.{lookup, insert, delete, nat_eq}
use prober.Backend.Sink.State.{StatusEvent}
use prober.Backend.Sink.Subscribers.{Subs, Numbers, insert-Numbers, delete-Numbers}
use prober.Backend.Sink.Readers.{AtMostOne, IsAbsent, IsAbsent-AtMostOne}

pub AtMostOne-insert_other :
    (i j : ℕ) (P : List StatusEvent → Type 0) (ch : List StatusEvent) (subs : Subs)
    → j ≢ i
    → AtMostOne i P subs
    → AtMostOne i P (insert j ch subs)
unfolding insert
AtMostOne-insert_other i j P ch [] n h = inr (n, tt)
AtMostOne-insert_other i j P ch ((k, c) ∷ rest) n (inl (e, p, a)) = put (Bool-cases (k == j))
  where
    put :
        (k == j ≡ true) ⊎ (k == j ≡ false)
        → AtMostOne i P (if k == j then (j, ch) ∷ rest else (k, c) ∷ insert j ch rest)
    put (inl t) = absurd (n (sym ((==_iff k j).0 t) ∙ e))
    put (inr f) =
        subst
          (λ (b : Bool). AtMostOne i P (if b then (j, ch) ∷ rest else (k, c) ∷ insert j ch rest))
          (sym f) (inl (e, p, insert-Numbers (λ m. m ≢ i) j ch rest n a))
AtMostOne-insert_other i j P ch ((k, c) ∷ rest) n (inr (m, h)) =
    put (k == j) (AtMostOne-insert_other i j P ch rest n h)
  where
    put :
        (b : Bool)
        → AtMostOne i P (insert j ch rest)
        → AtMostOne i P (if b then (j, ch) ∷ rest else (k, c) ∷ insert j ch rest)
    put true r = inr (n, h)
    put false r = inr (m, r)

-- Puts a channel for `i` in the place of the one that was there, if there was one.
pub AtMostOne-insert :
    (i : ℕ) (P Q : List StatusEvent → Type 0) (ch : List StatusEvent) (subs : Subs)
    → Q ch
    → AtMostOne i P subs
    → AtMostOne i Q (insert i ch subs)
unfolding insert
AtMostOne-insert i P Q ch [] q h = inl (refl, q, tt)
AtMostOne-insert i P Q ch ((k, c) ∷ rest) q (inl (e, p, a)) =
    subst (λ (b : Bool). AtMostOne i Q (if b then (i, ch) ∷ rest else (k, c) ∷ insert i ch rest))
      (sym ((==_iff k i).1 e)) (inl (refl, q, a))
AtMostOne-insert i P Q ch ((k, c) ∷ rest) q (inr (n, h)) =
    put (Bool-cases (k == i)) (AtMostOne-insert i P Q ch rest q h)
  where
    put :
        (k == i ≡ true) ⊎ (k == i ≡ false)
        → AtMostOne i Q (insert i ch rest)
        → AtMostOne i Q (if k == i then (i, ch) ∷ rest else (k, c) ∷ insert i ch rest)
    put (inl t) r = absurd (n ((==_iff k i).0 t))
    put (inr f) r =
        subst
          (λ (b : Bool). AtMostOne i Q (if b then (i, ch) ∷ rest else (k, c) ∷ insert i ch rest))
          (sym f) (inr (n, r))

pub AtMostOne-delete :
    (i j : ℕ) (P : List StatusEvent → Type 0) (subs : Subs)
    → AtMostOne i P subs
    → AtMostOne i P (delete j subs)
unfolding delete
AtMostOne-delete i j P [] h = tt
AtMostOne-delete i j P ((k, c) ∷ rest) (inl (e, p, a)) =
    kept (k == j) (delete-Numbers (λ m. m ≢ i) j rest a)
  where
    kept :
        (b : Bool)
        → IsAbsent i (delete j rest)
        → AtMostOne i P (if b then delete j rest else (k, c) ∷ delete j rest)
    kept true r = IsAbsent-AtMostOne i P (delete j rest) r
    kept false r = inl (e, p, r)
AtMostOne-delete i j P ((k, c) ∷ rest) (inr (n, h)) = kept (k == j) (AtMostOne-delete i j P rest h)
  where
    kept :
        (b : Bool)
        → AtMostOne i P (delete j rest)
        → AtMostOne i P (if b then delete j rest else (k, c) ∷ delete j rest)
    kept true r = r
    kept false r = inr (n, r)

pub AtMostOne-lookup :
    (i : ℕ) (P : List StatusEvent → Type 0) (ch : List StatusEvent) (subs : Subs)
    → AtMostOne i P subs
    → lookup i subs ≡ some ch
    → P ch
unfolding lookup
AtMostOne-lookup i P ch [] h e = cc
AtMostOne-lookup i P ch ((k, c) ∷ rest) (inl (m, p, a)) e =
    subst P
      (some_injective
        (sym (ap (λ (b : Bool). if b then some c else lookup i rest) ((==_iff k i).1 m)) ∙ e))
      p
  where
    some_injective : {x y : List StatusEvent} → some x ≡ some y → x ≡ y
    some_injective h = cc
AtMostOne-lookup i P ch ((k, c) ∷ rest) (inr (n, h)) e =
    AtMostOne-lookup i P ch rest h (
      sym (ap (λ (b : Bool). if b then some c else lookup i rest) (other (Bool-cases (k == i))))
      ∙ e)
  where
    other : (k == i ≡ true) ⊎ (k == i ≡ false) → k == i ≡ false
    other (inl t) = absurd (n ((==_iff k i).0 t))
    other (inr f) = f

pub Numbers-lookup :
    (P : ℕ → Type 0) (j : ℕ) (ch : List StatusEvent) (subs : Subs)
    → Numbers P subs
    → lookup j subs ≡ some ch
    → P j
unfolding lookup
Numbers-lookup P j ch [] h e = cc
Numbers-lookup P j ch ((k, c) ∷ rest) h e =
    by_key (Bool-cases (k == j)) (Numbers-lookup P j ch rest h.1)
  where
    by_key : (k == j ≡ true) ⊎ (k == j ≡ false) → (lookup j rest ≡ some ch → P j) → P j
    by_key (inl t) later = subst P ((==_iff k j).0 t) h.0
    by_key (inr f) later =
        later (sym (ap (λ (b : Bool). if b then some c else lookup j rest) f) ∙ e)
