-- ===== src/Auth/Groups.antt =====
-- Which accounts internal/auth/auth.go lets in, by the groups that their claims carry.
use prober.Prelude.{
  ◌≡◌, refl, sym, ap, subst, ◌∙◌, ◌⊎◌, inl, inr, ◌↔◌, Bool, true, false, ◌||◌, List, [], ◌∷◌, none,
  some, if◌then◌else◌, arith,
}
use prober.Prelude.Maps.{Text, text_eq}
use prober.Backend.Config.{is_blank}
use prober.Auth.Claims.{
  Json, json_null, json_bool, json_number, json_text, json_list, json_object, JsonList, no_items,
  item, Fields, no_fields, field, names_of, texts_of, leb_text, insert_sorted, sorted_names,
  as_strings, field_at, walk, split_dots, claim_values, contains, any_allowed, authorize, user_from,
}

abbrev pub IsIn : Text → List Text → Type 0
IsIn t [] = ⊥
IsIn t (s ∷ texts) = (s ≡ t) ⊎ IsIn t texts

abbrev pub IsItem : Text → JsonList → Type 0
IsItem t no_items = ⊥
IsItem t (item v rest) = (v ≡ json_text t) ⊎ IsItem t rest

abbrev pub IsName : Text → Fields → Type 0
IsName t no_fields = ⊥
IsName t (field name v rest) = (name ≡ t) ⊎ IsName t rest

-- The names that a claim carries: the texts in a list, the keys of an object, or a text that is not empty.
abbrev pub Carries : Json → Text → Type 0
Carries (json_list items) t = IsItem t items
Carries (json_object fields) t = IsName t fields
Carries (json_text s) t = (s ≡ t) × (is_blank s ≡ false)
Carries v t = ⊥

contains_iff : (texts : List Text) (t : Text) → (contains texts t ≡ true) ↔ IsIn t texts
contains_iff [] t = (λ h. cc, λ h. absurd h)
contains_iff (s ∷ texts) t = ground (arith, text_eq.beq_iff s t, contains_iff texts t)

-- An item that is no text is not among the texts.
skipped :
    (v : Json) (rest : JsonList) (t : Text)
    → (v ≡ json_text t → ⊥)
    → IsIn t (texts_of rest) ↔ IsItem t rest
    → IsIn t (texts_of rest) ↔ ((v ≡ json_text t) ⊎ IsItem t rest)
skipped v rest t n ih = (λ h. inr (ih.0 h), back)
  where
    back : (v ≡ json_text t) ⊎ IsItem t rest → IsIn t (texts_of rest)
    back (inl e) = absurd (n e)
    back (inr h) = ih.1 h

kept :
    (s : Text) (rest : JsonList) (t : Text)
    → IsIn t (texts_of rest) ↔ IsItem t rest
    → ((s ≡ t) ⊎ IsIn t (texts_of rest)) ↔ ((json_text s ≡ json_text t) ⊎ IsItem t rest)
kept s rest t ih = (fwd, bwd)
  where
    fwd : (s ≡ t) ⊎ IsIn t (texts_of rest) → (json_text s ≡ json_text t) ⊎ IsItem t rest
    fwd (inl e) = inl (ap json_text e)
    fwd (inr h) = inr (ih.0 h)

    bwd : (json_text s ≡ json_text t) ⊎ IsItem t rest → (s ≡ t) ⊎ IsIn t (texts_of rest)
    bwd (inl e) = inl cc
    bwd (inr h) = inr (ih.1 h)

texts_of_iff : (items : JsonList) (t : Text) → IsIn t (texts_of items) ↔ IsItem t items
texts_of_iff no_items t = (λ h. h, λ h. h)
texts_of_iff (item (json_text s) rest) t = kept s rest t (texts_of_iff rest t)
texts_of_iff (item json_null rest) t = skipped json_null rest t (λ e. cc) (texts_of_iff rest t)
texts_of_iff (item (json_bool b) rest) t =
    skipped (json_bool b) rest t (λ e. cc) (texts_of_iff rest t)
texts_of_iff (item (json_number n) rest) t =
    skipped (json_number n) rest t (λ e. cc) (texts_of_iff rest t)
texts_of_iff (item (json_list items) rest) t =
    skipped (json_list items) rest t (λ e. cc) (texts_of_iff rest t)
texts_of_iff (item (json_object fields) rest) t =
    skipped (json_object fields) rest t (λ e. cc) (texts_of_iff rest t)

names_of_iff : (fields : Fields) (t : Text) → IsIn t (names_of fields) ↔ IsName t fields
names_of_iff no_fields t = (λ h. h, λ h. h)
names_of_iff (field name v rest) t = ground (arith, names_of_iff rest t)

insert_sorted_iff :
    (s : Text) (texts : List Text) (t : Text)
    → IsIn t (insert_sorted s texts) ↔ ((s ≡ t) ⊎ IsIn t texts)
insert_sorted_iff s [] t = (λ h. h, λ h. h)
insert_sorted_iff s (r ∷ texts) t = by_order (leb_text s r) (insert_sorted_iff s texts t)
  where
    by_order :
        (b : Bool)
        → IsIn t (insert_sorted s texts) ↔ ((s ≡ t) ⊎ IsIn t texts)
        → IsIn t (if b then s ∷ r ∷ texts else r ∷ insert_sorted s texts)
          ↔ ((s ≡ t) ⊎ IsIn t (r ∷ texts))
    by_order true ih = (λ h. h, λ h. h)
    by_order false ih = ground (arith, ih)

sorted_names_iff : (texts : List Text) (t : Text) → IsIn t (sorted_names texts) ↔ IsIn t texts
unfolding sorted_names
sorted_names_iff [] t = (λ h. h, λ h. h)
sorted_names_iff (s ∷ texts) t =
    ground (arith, insert_sorted_iff s (sorted_names texts) t, sorted_names_iff texts t)

as_strings-Carries : (v : Json) (t : Text) → IsIn t (as_strings v) ↔ Carries v t
unfolding as_strings
as_strings-Carries json_null t = (λ h. h, λ h. h)
as_strings-Carries (json_bool b) t = (λ h. h, λ h. h)
as_strings-Carries (json_number n) t = (λ h. h, λ h. h)
as_strings-Carries (json_text s) t = by_blank (is_blank s) refl
  where
    by_blank :
        (b : Bool)
        → is_blank s ≡ b
        → IsIn t (if b then [] else s ∷ []) ↔ ((s ≡ t) × (is_blank s ≡ false))
    by_blank true e = (λ h. absurd h, λ h. let bad : true ≡ false = sym e ∙ h.1 in cc)
    by_blank false e = ground (arith, e)
as_strings-Carries (json_list items) t = texts_of_iff items t
as_strings-Carries (json_object fields) t = (
  (λ h. (names_of_iff fields t).0 ((sorted_names_iff (names_of fields) t).0 h)),
  λ h. (sorted_names_iff (names_of fields) t).1 ((names_of_iff fields t).1 h),
)

-- Some name is in both lists.
abbrev pub HasShared : List Text → List Text → Type 0
HasShared allowed groups = (g : Text) × (IsIn g allowed × IsIn g groups)

any_allowed_iff :
    (allowed groups : List Text) → (any_allowed allowed groups ≡ true) ↔ HasShared allowed groups
any_allowed_iff allowed [] = (λ h. cc, λ h. absurd h.1.1)
any_allowed_iff allowed (g ∷ groups) =
    by_first (contains allowed g) (contains_iff allowed g) (any_allowed_iff allowed groups)
  where
    wider : HasShared allowed groups → HasShared allowed (g ∷ groups)
    wider (x, (i, j)) = (x, (i, inr j))

    by_first :
        (b : Bool)
        → (b ≡ true) ↔ IsIn g allowed
        → (any_allowed allowed groups ≡ true) ↔ HasShared allowed groups
        → (b || any_allowed allowed groups ≡ true) ↔ HasShared allowed (g ∷ groups)
    by_first true first rest = (λ h. (g, (first.0 refl, inl refl)), λ h. refl)
    by_first false first rest = (λ h. wider (rest.0 h), narrower)
      where
        narrower : HasShared allowed (g ∷ groups) → any_allowed allowed groups ≡ true
        narrower (x, (i, inl e)) =
            let bad : false ≡ true = first.1 (subst (λ (y : Text). IsIn y allowed) (sym e) i) in cc
        narrower (x, (i, inr j)) = rest.1 (x, (i, j))

-- Where `claimValues` finds a claim: under the exact key, or at the end of the dotted path if no key is exact.
abbrev pub IsClaimAt : Fields → Text → Json → Type 0
IsClaimAt claims path v =
    (field_at path claims ≡ some v)
    ⊎ ((field_at path claims ≡ none)
        × (walk (split_dots path) (some (json_object claims)) ≡ some v))

claim_values-IsClaimAt :
    (claims : Fields) (path : Text) (v : Json)
    → is_blank path ≡ false
    → IsClaimAt claims path v
    → claim_values claims path ≡ as_strings v
unfolding claim_values
claim_values-IsClaimAt claims path v h (inl e) = rw (h, e)
claim_values-IsClaimAt claims path v h (inr (e, f)) = rw (h, e, f)

-- When groups are required and the groups claim is present, under its exact key or else at the end of its
-- dotted path, an account may sign in exactly when the claim carries a name that is allowed: as a text in a
-- list, as a key of an object, or as the text that it is.
pub authorize-Carries :
    (allowed : List Text) (first path subject : Text) (claims : Fields) (v : Json)
    → is_blank path ≡ false
    → IsClaimAt claims path v
    → (authorize (first ∷ allowed) (user_from path subject claims) ≡ true)
      ↔ ((g : Text) × (IsIn g (first ∷ allowed) × Carries v g))
unfolding authorize user_from
authorize-Carries allowed first path subject claims v h k = (fwd, bwd)
  where
    names : List Text
    names = claim_values claims path

    same : names ≡ as_strings v
    same = claim_values-IsClaimAt claims path v h k

    fwd :
        any_allowed (first ∷ allowed) names ≡ true
        → (g : Text) × (IsIn g (first ∷ allowed) × Carries v g)
    fwd e =
        let (g, (i, j)) = (any_allowed_iff (first ∷ allowed) names).0 e in
        (g, (i, (as_strings-Carries v g).0 (subst (IsIn g) same j)))

    bwd :
        (g : Text) × (IsIn g (first ∷ allowed) × Carries v g)
        → any_allowed (first ∷ allowed) names ≡ true
    bwd (g, (i, j)) =
        (any_allowed_iff (first ∷ allowed) names).1
          (g, (i, subst (IsIn g) (sym same) ((as_strings-Carries v g).1 j)))
