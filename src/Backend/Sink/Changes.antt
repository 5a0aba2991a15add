-- ===== src/Backend/Sink/Changes.antt =====
-- The changes that internal/backend/monitorsink.go publishes, and what a reader of them makes of them.
use prober.Prelude.{
  ℕ, ◌≡◌, refl, sym, ap, subst, ◌∙◌, Bool, true, false, List, [], ◌∷◌, ◌++◌, Option, none, some,
  arith, if◌then◌else◌, Bool-cases, inl, inr,
}
use prober.Prelude.Maps.{
  Text, Map, lookup, insert, delete, text_eq, ◌=?◌, lookup-insert, lookup-delete,
}
use prober.Backend.Registry.{MonitorRegistry}
use prober.Backend.Sink.State.{
  MonitorState, Aggregate, StatusEvent, one_changed, some_changed, reloaded, Sink,
}
use prober.Backend.Sink.Stream.{
  same_state, since_for, is_changed, aggregate_locked, renewed, refresh_locked, refresh_each,
  is_configured, prune,
}

-- The aggregates of a batch over those that were there.
unfoldable pub merge : Map Text Aggregate → Map Text Aggregate → Map Text Aggregate
merge [] view = view
merge ((id, a) ∷ changes) view = insert id a (merge changes view)

-- What a reader does with an event; a reload says nothing of single monitors.
abbrev pub apply_event : StatusEvent → Map Text Aggregate → Map Text Aggregate
apply_event (one_changed id a) view = insert id a view
apply_event (some_changed changes) view = merge changes view
apply_event (reloaded version) view = view

-- A reader's aggregates, from its snapshot and the events after it.
abbrev pub view_after : List StatusEvent → Map Text Aggregate → Map Text Aggregate
view_after [] view = view
view_after (ev ∷ evs) view = view_after evs (apply_event ev view)

pub view_after-append :
    (xs ys : List StatusEvent) (view : Map Text Aggregate)
    → view_after (xs ++ ys) view ≡ view_after ys (view_after xs view)
view_after-append [] ys view = refl
view_after-append (x ∷ xs) ys view = view_after-append xs ys (apply_event x view)

-- Every aggregate is in the view.
abbrev pub Shows : Map Text Aggregate → Map Text Aggregate → Type 0
Shows view agg = (id : Text) (a : Aggregate) → lookup id agg ≡ some a → lookup id view ≡ some a

pub Shows-insert :
    (id : Text) (a : Aggregate) (view agg : Map Text Aggregate)
    → Shows view agg
    → Shows (insert id a view) (insert id a agg)
Shows-insert id a view agg h j b e = elim (Bool-cases (id =? j)) [
  | inl t ↦
      lookup-insert id j a view
      ∙ (ap (λ (c : Bool). if c then some a else lookup j view) t
          ∙ (sym (ap (λ (c : Bool). if c then some a else lookup j agg) t)
              ∙ (sym (lookup-insert id j a agg) ∙ e)))
  | inr f ↦
      lookup-insert id j a view
      ∙ (ap (λ (c : Bool). if c then some a else lookup j view) f
          ∙ h j b (
              sym (ap (λ (c : Bool). if c then some a else lookup j agg) f)
              ∙ (sym (lookup-insert id j a agg) ∙ e)))
]

-- An entry that is written again changes no read.
pub Shows-insert_same :
    (id : Text) (a : Aggregate) (view agg : Map Text Aggregate)
    → lookup id agg ≡ some a
    → Shows view agg
    → Shows view (insert id a agg)
Shows-insert_same id a view agg found h j b e = elim (Bool-cases (id =? j)) [
  | inl t ↦
      let same : id ≡ j = (text_eq.beq_iff id j).0 t in
      h j b (
        subst (λ (k : Text). lookup k agg ≡ some a) same found
        ∙ (sym (ap (λ (c : Bool). if c then some a else lookup j agg) t)
            ∙ (sym (lookup-insert id j a agg) ∙ e)))
  | inr f ↦ h j b (
      sym (ap (λ (c : Bool). if c then some a else lookup j agg) f)
      ∙ (sym (lookup-insert id j a agg) ∙ e))
]

same_state_eq : (a b : MonitorState) → same_state a b ≡ true → a ≡ b
same_state_eq a b h = ground arith

-- What is not reported as changed has not changed.
pub is_changed-false :
    (now : ℕ) (a prev : Aggregate)
    → is_changed a (some prev) ≡ false
    → record a { since = since_for now a (some prev) } ≡ prev
is_changed-false now a prev h = ground (arith, same_state_eq a.state prev.state)

is_changed_since :
    (a : Aggregate) (since : Option ℕ) (o : Option Aggregate)
    → is_changed (record a { since = since }) o ≡ is_changed a o
is_changed_since a since none = refl
is_changed_since a since (some prev) = refl

-- A refresh that reports no change writes the aggregate that was there.
pub renewed-unchanged :
    (id : Text) (now : ℕ) (s : Sink)
    → is_changed (renewed id now s) (lookup id s.agg) ≡ false
    → lookup id s.agg ≡ some (renewed id now s)
unfolding renewed
renewed-unchanged id now s h = by_found (lookup id s.agg) refl
  where
    by_found :
        (o : Option Aggregate) → lookup id s.agg ≡ o → lookup id s.agg ≡ some (renewed id now s)
    by_found none e =
        let bad : is_changed (renewed id now s) none ≡ false =
          subst (λ (o : Option Aggregate). is_changed (renewed id now s) o ≡ false) e h in
        cc
    by_found (some prev) e =
        let a = aggregate_locked id now s in
        let kept : is_changed a (some prev) ≡ false =
          sym (is_changed_since a (since_for now a (lookup id s.agg)) (some prev))
          ∙ subst (λ (o : Option Aggregate). is_changed (renewed id now s) o ≡ false) e h in
        e
        ∙ ap some (
            sym (is_changed-false now a prev kept)
            ∙ ap (λ (o : Option Aggregate). record a { since = since_for now a o }) (sym e))

abbrev over : Option Aggregate → Option Aggregate → Option Aggregate
over none d = d
over (some a) d = some a

lookup-merge :
    (j : Text) (m view : Map Text Aggregate)
    → lookup j (merge m view) ≡ over (lookup j m) (lookup j view)
unfolding merge lookup
lookup-merge j [] view = refl
lookup-merge j ((id, a) ∷ m) view =
    lookup-insert id j a (merge m view) ∙ by_key (id =? j) (lookup-merge j m view)
  where
    by_key :
        (b : Bool)
        → lookup j (merge m view) ≡ over (lookup j m) (lookup j view)
        → (if b then some a else lookup j (merge m view))
          ≡ over (if b then some a else lookup j m) (lookup j view)
    by_key true e = refl
    by_key false e = e

lookup-merge-insert :
    (j id : Text) (a : Aggregate) (m view : Map Text Aggregate)
    → lookup j (merge (insert id a m) view) ≡ lookup j (insert id a (merge m view))
lookup-merge-insert j id a m view =
    lookup-merge j (insert id a m) view
    ∙ (ap (λ (o : Option Aggregate). over o (lookup j view)) (lookup-insert id j a m)
        ∙ (by_key (id =? j) ∙ sym (lookup-insert id j a (merge m view))))
  where
    by_key :
        (b : Bool)
        → over (if b then some a else lookup j m) (lookup j view)
          ≡ (if b then some a else lookup j (merge m view))
    by_key true = refl
    by_key false = sym (lookup-merge j m view)

-- One round of the loop of a sweep keeps the collected changes in step with the aggregates.
collected-Shows :
    (id : Text) (now : ℕ) (changes view : Map Text Aggregate) (s : Sink)
    → Shows (merge changes view) s.agg
    → Shows
        (merge
          (if is_changed (renewed id now s) (lookup id s.agg)
            then insert id (renewed id now s) changes
            else changes)
          view)
        (insert id (renewed id now s) s.agg)
collected-Shows id now changes view s h =
    elim (Bool-cases (is_changed (renewed id now s) (lookup id s.agg))) [
      | inl t ↦
          subst
            (λ (b : Bool).
              Shows (merge (if b then insert id a changes else changes) view) (insert id a s.agg))
            (sym t)
            (λ j b e.
              lookup-merge-insert j id a changes view
              ∙ Shows-insert id a (merge changes view) s.agg h j b e)
      | inr f ↦
          subst
            (λ (b : Bool).
              Shows (merge (if b then insert id a changes else changes) view) (insert id a s.agg))
            (sym f)
            (Shows-insert_same id a (merge changes view) s.agg (renewed-unchanged id now s f) h)
    ]
  where
    a : Aggregate
    a = renewed id now s

pub refresh_each-Shows :
    (now : ℕ) (ids : Map Text (Unit {0})) (changes view : Map Text Aggregate) (s : Sink)
    → Shows (merge changes view) s.agg
    → Shows (merge (refresh_each now ids changes s).0 view) (refresh_each now ids changes s).1.agg
      × ((refresh_each now ids changes s).1.subs ≡ s.subs)
unfolding refresh_each refresh_locked
refresh_each-Shows now [] changes view s h = (h, refl)
refresh_each-Shows now ((id, u) ∷ ids) changes view s h =
    refresh_each-Shows now ids _ view _ (collected-Shows id now changes view s h)

-- Pruning only takes aggregates away.
pub prune-Shows :
    (reg : MonitorRegistry) (walk agg view : Map Text Aggregate)
    → Shows view agg
    → Shows view (prune reg walk agg)
prune-Shows reg [] agg view h = h
prune-Shows reg ((id, x) ∷ walk) agg view h =
    prune-Shows reg walk _ view (kept (is_configured (lookup id reg.by_id)))
  where
    kept : (b : Bool) → Shows view (if b then agg else delete id agg)
    kept true = h
    kept false = λ j a e. elim (Bool-cases (id =? j)) [
      | inl t ↦
          let gone : none ≡ some a =
            sym (ap (λ (c : Bool). if c then none else lookup j agg) t)
            ∙ (sym (lookup-delete id j agg) ∙ e) in
          cc
      | inr f ↦ h j a (
          sym (ap (λ (c : Bool). if c then none else lookup j agg) f)
          ∙ (sym (lookup-delete id j agg) ∙ e))
    ]
