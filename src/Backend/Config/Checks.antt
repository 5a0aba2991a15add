-- ===== src/Backend/Config/Checks.antt =====
-- How the checks of internal/backend/config.go read: guards, first errors, and sets of keys seen.
use prober.Prelude.{
  ◌≡◌, ◌≢◌, ◌↔◌, refl, sym, ap, ◌∙◌, inl, inr, Bool, true, false, ◌||◌, List, [], ◌∷◌, Option, none,
  some, All, arith, if◌then◌else◌, Bool-cases,
}
use prober.Prelude.Maps.{Text, Map, lookup, insert, text_eq, ◌=?◌, lookup-insert}
use prober.Backend.Config.{ConfigError, is_blank, is_seen, first_error}

-- No key occurs twice.
abbrev pub IsDistinct {ℓ} : {A : Type ℓ} → (A → Text) → List A → Type ℓ
IsDistinct key [] = Unit
IsDistinct key (x ∷ xs) = All (λ y. key x ≢ key y) xs × IsDistinct key xs

pub is_blank_iff : (t : Text) → (is_blank t ≡ true) ↔ (t ≡ [])
is_blank_iff [] = ground arith
is_blank_iff (c ∷ cs) = ground arith

pub guard-none :
    (b : Bool) (e : ConfigError) (k : Option ConfigError)
    → ((if b then some e else k) ≡ none) ↔ ((b ≡ false) × (k ≡ none))
guard-none true e k = (λ h. cc, λ h. cc)
guard-none false e k = (λ h. (refl, h), λ h. h.1)

pub first_error-none :
    (a b : Option ConfigError) → (first_error a b ≡ none) ↔ ((a ≡ none) × (b ≡ none))
first_error-none none b = (λ h. (refl, h), λ h. h.1)
first_error-none (some e) b = (λ h. cc, λ h. cc)

pub is_seen-insert :
    (k j : Text) (m : Map Text Bool) → is_seen j (insert k true m) ≡ (k =? j || is_seen j m)
is_seen-insert k j m = ap seen (lookup-insert k j true m) ∙ by_equal (k =? j)
  where
    seen : Option Bool → Bool
    seen none = false
    seen (some b) = b

    by_equal : (b : Bool) → seen (if b then some true else lookup j m) ≡ (b || is_seen j m)
    by_equal true = refl
    by_equal false = refl

pub or-false : (a b : Bool) → ((a || b) ≡ false) ↔ ((a ≡ false) × (b ≡ false))
or-false true b = (λ h. cc, λ h. cc)
or-false false b = (λ h. (refl, h), λ h. h.1)

pub =?-false : (a b : Text) → ((a =? b) ≡ false) ↔ (a ≢ b)
=?-false a b = (λ h e. let t = (text_eq.beq_iff a b).1 e in cc, λ n. not_equal n)
  where
    not_equal : a ≢ b → (a =? b) ≡ false
    not_equal n = elim (Bool-cases (a =? b)) [
      | inl t ↦ absurd (n ((text_eq.beq_iff a b).0 t))
      | inr f ↦ f
    ]

-- No key is in a set.
abbrev pub IsUnseen {ℓ} : {A : Type ℓ} → (A → Text) → Map Text Bool → List A → Type 0
IsUnseen key ids = All (λ x. is_seen (key x) ids ≡ false)

module _ {ℓ} {A : Type ℓ} (key : A → Text) (k : Text) (ids : Map Text Bool) where
  pub IsUnseen-insert :
      (xs : List A)
      → IsUnseen key (insert k true ids) xs ↔ (All (λ y. k ≢ key y) xs × IsUnseen key ids xs)
  IsUnseen-insert [] = (λ _. (tt, tt), λ _. tt)
  IsUnseen-insert (x ∷ xs) = (
    λ h.
        let parts =
          (or-false (k =? key x) (is_seen (key x) ids)).0
            (sym (is_seen-insert k (key x) ids) ∙ h.0) in
        let others = (IsUnseen-insert xs).0 h.1 in
        (((=?-false k (key x)).0 parts.0, others.0), (parts.1, others.1)),
    λ h. (
      is_seen-insert k (key x) ids
          ∙ (or-false (k =? key x) (is_seen (key x) ids)).1 ((=?-false k (key x)).1 h.0.0, h.1.0),
      (IsUnseen-insert xs).1 (h.0.1, h.1.1),
    ),
  )

pub empty-IsUnseen : {A : Type 0} (key : A → Text) (xs : List A) → IsUnseen key [] xs
unfolding lookup
empty-IsUnseen key [] = tt
empty-IsUnseen key (x ∷ xs) = (refl, empty-IsUnseen key xs)
