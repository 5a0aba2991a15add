-- ===== src/Backend/Run/UnderWay.antt =====
-- What is on its way to a subscriber of internal/backend/run.go.
use prober.Prelude.{
  ℕ, ◌≡◌, ◌≢◌, ◌⊎◌, refl, ap, ◌∙◌, Bool, true, false, List, [], ◌∷◌, ◌++◌, ltb, ◌==◌, ==_iff,
  if◌then◌else◌, Bool-cases, inl, inr, All, some,
}
use prober.Backend.Run.{StreamEvent, Subscriber, offer, offer_to, sends, after}

pub after-append :
    (n : ℕ) (xs ys : List StreamEvent) → after n (xs ++ ys) ≡ after n xs ++ after n ys
after-append n [] ys = refl
after-append n (x ∷ xs) ys = elim (Bool-cases (ltb n x.seq)) [
  | inl t ↦ rw (t, after-append n xs ys)
  | inr f ↦ rw (f, after-append n xs ys)
]

-- The events on their way to a subscriber.
abbrev pub under_way : ℕ → List (ℕ × StreamEvent) → List StreamEvent
under_way id [] = []
under_way id ((j, se) ∷ rest) =
    let later = under_way id rest in if j == id then se ∷ later else later

pub under_way-append :
    (id : ℕ) (xs ys : List (ℕ × StreamEvent))
    → under_way id (xs ++ ys) ≡ under_way id xs ++ under_way id ys
under_way-append id [] ys = refl
under_way-append id ((j, se) ∷ xs) ys = elim (Bool-cases (j == id)) [
  | inl t ↦ rw (t, under_way-append id xs ys)
  | inr f ↦ rw (f, under_way-append id xs ys)
]

-- Nobody here has this number.
abbrev pub IsNew : ℕ → List Subscriber → Type 0
IsNew id = All (λ (sub : Subscriber). sub.id ≢ id)

abbrev pub is_there : ℕ → List Subscriber → Bool
is_there id [] = false
is_there id (sub ∷ subs) = let rest = is_there id subs in if sub.id == id then true else rest

-- Every send under way is to a subscriber that is there.
abbrev pub AllThere : List (ℕ × StreamEvent) → List Subscriber → Type 0
AllThere [] subs = Unit
AllThere ((j, se) ∷ rest) subs = (is_there j subs ≡ true) × AllThere rest subs

pub neq_false : (a b : ℕ) → a ≢ b → (a == b) ≡ false
neq_false a b n = elim (Bool-cases (a == b)) [ inl t ↦ absurd (n ((==_iff a b).0 t)) | inr f ↦ f ]

pub sends-new :
    (id : ℕ) (se : StreamEvent) (subs : List Subscriber)
    → IsNew id subs
    → under_way id (sends se subs) ≡ []
sends-new id se [] h = refl
sends-new id se (sub ∷ subs) (n, h) = rw (neq_false sub.id id n) (sends-new id se subs h)

pub AllThere-append :
    (xs ys : List (ℕ × StreamEvent)) (subs : List Subscriber)
    → AllThere xs subs
    → AllThere ys subs
    → AllThere (xs ++ ys) subs
AllThere-append [] ys subs h k = k
AllThere-append (x ∷ xs) ys subs (h, hs) k = (h, AllThere-append xs ys subs hs k)

there_later :
    (j : ℕ) (sub : Subscriber) (subs : List Subscriber)
    → is_there j subs ≡ true
    → is_there j (sub ∷ subs) ≡ true
there_later j sub subs h = elim (Bool-cases (sub.id == j)) [ inl t ↦ rw t refl | inr f ↦ rw f h ]

pub AllThere-later :
    (xs : List (ℕ × StreamEvent)) (sub : Subscriber) (subs : List Subscriber)
    → AllThere xs subs
    → AllThere xs (sub ∷ subs)
AllThere-later [] sub subs h = tt
AllThere-later ((j, se) ∷ xs) sub subs (h, hs) =
    (there_later j sub subs h, AllThere-later xs sub subs hs)

pub AllThere-sends : (se : StreamEvent) (subs : List Subscriber) → AllThere (sends se subs) subs
AllThere-sends se [] = tt
AllThere-sends se (sub ∷ subs) = (
  (let same : (sub.id == sub.id) ≡ true = (==_iff sub.id sub.id).1 refl in rw same refl),
  AllThere-later (sends se subs) sub subs (AllThere-sends se subs),
)

-- A send to a subscriber that is there goes through, and leaves everyone there.
pub record Offered (id : ℕ) (se : StreamEvent) (subs : List Subscriber) : Type 0 where
  pub left : List Subscriber
  pub offered : offer_to id se subs ≡ some left
  pub still : (j : ℕ) → is_there j left ≡ is_there j subs
  pub new : (j : ℕ) → IsNew j subs → IsNew j left

pub offer_to-there :
    (id : ℕ) (se : StreamEvent) (subs : List Subscriber)
    → is_there id subs ≡ true
    → Offered id se subs
offer_to-there id se [] h = cc
offer_to-there id se (sub ∷ subs) h = by_id (Bool-cases (sub.id == id)) (offer_to-there id se subs)
  where
    by_id :
        (sub.id == id ≡ true) ⊎ (sub.id == id ≡ false)
        → (is_there id subs ≡ true → Offered id se subs)
        → Offered id se (sub ∷ subs)
    by_id (inl t) ih = record {
      left = offer se sub ∷ subs;
      offered = rw t refl;
      still = λ j. refl;
      new = λ j h. h;
    }
    by_id (inr f) ih =
        let o = ih (rw f at h) in
        record {
          left = sub ∷ o.left;
          offered = rw (f, o.offered) refl;
          still = λ j. ap (λ (b : Bool). if sub.id == j then true else b) (o.still j);
          new = λ j k. (k.0, o.new j k.1);
        }

pub AllThere-still :
    (xs : List (ℕ × StreamEvent)) (subs left : List Subscriber)
    → ((j : ℕ) → is_there j left ≡ is_there j subs)
    → AllThere xs subs
    → AllThere xs left
AllThere-still [] subs left e h = tt
AllThere-still ((j, se) ∷ xs) subs left e (h, hs) = (e j ∙ h, AllThere-still xs subs left e hs)

pub AllThere-split :
    (xs : List (ℕ × StreamEvent)) (j : ℕ) (se : StreamEvent) (ys : List (ℕ × StreamEvent))
    (subs : List Subscriber)
    → AllThere (xs ++ (j, se) ∷ ys) subs
    → (is_there j subs ≡ true) × AllThere (xs ++ ys) subs
AllThere-split [] j se ys subs (h, hs) = (h, hs)
AllThere-split ((k, x) ∷ xs) j se ys subs (h, hs) =
    let (t, rest) = AllThere-split xs j se ys subs hs in (t, (h, rest))
