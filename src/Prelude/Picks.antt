-- ===== src/Prelude/Picks.antt =====
-- Taking one element out of a list, for what happens in an order that the code does not fix.
use prober.Prelude.{ℕ, zero, suc, ◌≡◌, refl, sym, ap, ◌∙◌, List, [], ◌∷◌, ◌++◌, Option, none, some}

module _ {ℓ} {A : Type ℓ} where
  abbrev pub keep_other : A → Option (A × List A) → Option (A × List A)
  keep_other a none = none
  keep_other a (some (b, rest)) = some (b, a ∷ rest)

  -- The element at an index, and the others.
  abbrev pub take_at : ℕ → List A → Option (A × List A)
  take_at i [] = none
  take_at zero (a ∷ as_) = some (a, as_)
  take_at (suc i) (a ∷ as_) = keep_other a (take_at i as_)

  pub record Split (xs : List A) (a : A) (rest : List A) : Type ℓ where
    pub before : List A
    pub after : List A
    pub whole : xs ≡ before ++ a ∷ after
    pub others : rest ≡ before ++ after

  keep_other-Split :
      (x : A) (xs : List A) (o : Option (A × List A)) (a : A) (rest : List A)
      → ((b : A) (ys : List A) → o ≡ some (b, ys) → Split xs b ys)
      → keep_other x o ≡ some (a, rest)
      → Split (x ∷ xs) a rest
  keep_other-Split x xs none a rest k h = cc
  keep_other-Split x xs (some (b, ys)) a rest k h =
      let s = k b ys refl in
      let eb : b ≡ a = cc in
      let er : x ∷ ys ≡ rest = cc in
      record {
        before = x ∷ s.before;
        after = s.after;
        whole = ap (λ (l : List A). x ∷ l) (s.whole ∙ ap (λ (c : A). s.before ++ c ∷ s.after) eb);
        others = sym er ∙ ap (λ (l : List A). x ∷ l) s.others;
      }

  pub take_at-Split :
      (i : ℕ) (xs : List A) (a : A) (rest : List A)
      → take_at i xs ≡ some (a, rest)
      → Split xs a rest
  take_at-Split i [] a rest h = cc
  take_at-Split zero (x ∷ xs) a rest h =
      let ea : x ≡ a = cc in
      let er : xs ≡ rest = cc in
      record { before = []; after = xs; whole = ap (λ (c : A). c ∷ xs) ea; others = sym er }
  take_at-Split (suc i) (x ∷ xs) a rest h =
      keep_other-Split x xs (take_at i xs) a rest (take_at-Split i xs) h
