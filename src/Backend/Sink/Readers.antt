-- ===== src/Backend/Sink/Readers.antt =====
-- That a reader of the status stream of internal/backend/monitorsink.go sees every aggregate.
use prober.Prelude.{
  ℕ, ◌≡◌, ◌≢◌, refl, sym, ap, subst, ◌∙◌, ◌⊎◌, inl, inr, Bool, true, false, List, [], ◌∷◌, ◌++◌,
  length, ltb, ◌==◌, if◌then◌else◌, Bool-cases, arith,
}
use mathlib.Core.List.{append_assoc}
use prober.Prelude.Maps.{Text, Map, lookup, insert, text_eq, nat_eq}
use prober.Api.{Event}
use prober.Backend.Registry.{MonitorRegistry}
use prober.Backend.Sink.State.{Aggregate, StatusEvent, one_changed, some_changed, reloaded, Sink}
use prober.Backend.Sink.Stream.{
  refresh, refresh_locked, renewed, is_changed, refresh_each, refresh_all, monitor_ids_locked,
  publish_locked, send_each, capacity, sweep, forget_silent, retain, retain_each, prune,
}
use prober.Backend.Sink.Events.{on_monitor_event}
use prober.Backend.Sink.Changes.{
  Shows, view_after, view_after-append, apply_event, merge, Shows-insert, Shows-insert_same,
  renewed-unchanged, refresh_each-Shows, prune-Shows,
}
use prober.Backend.Sink.Subscribers.{Subs, Numbers, send_each-Numbers}
use prober.Backend.Sink.Handlers.{
  IsQuiet, forget_silent-IsQuiet, retain_each-IsQuiet, Refreshed, unseen, then_refresh,
  on_monitor_event-Refreshed,
}

-- No entry for `i`.
abbrev pub IsAbsent : ℕ → Subs → Type 0
IsAbsent i = Numbers (λ j. j ≢ i)

-- At most one entry for `i`, and its channel satisfies `P`.
abbrev pub AtMostOne : ℕ → (List StatusEvent → Type 0) → Subs → Type 0
AtMostOne i P [] = Unit
AtMostOne i P ((j, ch) ∷ rest) = ((j ≡ i) × P ch × IsAbsent i rest) ⊎ ((j ≢ i) × AtMostOne i P rest)

AtMostOne-mono :
    (i : ℕ) (P Q : List StatusEvent → Type 0) (subs : Subs)
    → ((ch : List StatusEvent) → P ch → Q ch)
    → AtMostOne i P subs
    → AtMostOne i Q subs
AtMostOne-mono i P Q [] f h = tt
AtMostOne-mono i P Q ((j, ch) ∷ rest) f (inl (e, p, a)) = inl (e, f ch p, a)
AtMostOne-mono i P Q ((j, ch) ∷ rest) f (inr (n, h)) = inr (n, AtMostOne-mono i P Q rest f h)

pub IsAbsent-AtMostOne :
    (i : ℕ) (P : List StatusEvent → Type 0) (subs : Subs) → IsAbsent i subs → AtMostOne i P subs
IsAbsent-AtMostOne i P [] h = tt
IsAbsent-AtMostOne i P ((j, ch) ∷ rest) h = inr (h.0, IsAbsent-AtMostOne i P rest h.1)

send_each-AtMostOne :
    (i : ℕ) (ev : StatusEvent) (P Q : List StatusEvent → Type 0) (subs : Subs)
    → ((ch : List StatusEvent) → P ch → Q (ch ++ ev ∷ []))
    → AtMostOne i P subs
    → AtMostOne i Q (send_each ev subs)
send_each-AtMostOne i ev P Q [] f h = tt
send_each-AtMostOne i ev P Q ((j, ch) ∷ rest) f (inl (e, p, a)) = kept (ltb (length ch) capacity)
  where
    gone : IsAbsent i (send_each ev rest)
    gone = send_each-Numbers (λ k. k ≢ i) ev rest a

    kept :
        (b : Bool)
        → AtMostOne i Q (if b then (j, ch ++ ev ∷ []) ∷ send_each ev rest else send_each ev rest)
    kept true = inl (e, f ch p, gone)
    kept false = IsAbsent-AtMostOne i Q (send_each ev rest) gone
send_each-AtMostOne i ev P Q ((j, ch) ∷ rest) f (inr (n, h)) =
    kept (ltb (length ch) capacity) (send_each-AtMostOne i ev P Q rest f h)
  where
    kept :
        (b : Bool)
        → AtMostOne i Q (send_each ev rest)
        → AtMostOne i Q (if b then (j, ch ++ ev ∷ []) ∷ send_each ev rest else send_each ev rest)
    kept true r = inr (n, r)
    kept false r = r

-- What reader `i` has: its snapshot and what it has read, with what is in its channel, show every
-- aggregate.
abbrev pub IsCurrent : ℕ → Map Text Aggregate → List StatusEvent → Sink → Type 0
IsCurrent i snapshot read s =
    AtMostOne i (λ ch. Shows (view_after (read ++ ch) snapshot) s.agg) s.subs

view_after_sent :
    (read ch : List StatusEvent) (ev : StatusEvent) (snapshot : Map Text Aggregate)
    → view_after (read ++ (ch ++ ev ∷ [])) snapshot
      ≡ apply_event ev (view_after (read ++ ch) snapshot)
view_after_sent read ch ev snapshot =
    ap (λ (evs : List StatusEvent). view_after evs snapshot) (sym (append_assoc read ch (ev ∷ [])))
    ∙ view_after-append (read ++ ch) (ev ∷ []) snapshot

-- An event that takes every view that showed `before` to one that shows `s.agg`.
publish_locked-IsCurrent :
    (i : ℕ) (snapshot : Map Text Aggregate) (read : List StatusEvent) (ev : StatusEvent)
    (before : Map Text Aggregate) (s : Sink)
    → ((view : Map Text Aggregate) → Shows view before → Shows (apply_event ev view) s.agg)
    → AtMostOne i (λ ch. Shows (view_after (read ++ ch) snapshot) before) s.subs
    → IsCurrent i snapshot read (publish_locked ev s)
unfolding publish_locked
publish_locked-IsCurrent i snapshot read ev before s f h =
    send_each-AtMostOne i ev _ (λ ch. Shows (view_after (read ++ ch) snapshot) s.agg) s.subs
      (λ ch p.
        subst (λ (v : Map Text Aggregate). Shows v s.agg)
          (sym (view_after_sent read ch ev snapshot)) (f _ p))
      h

pub IsQuiet-IsCurrent :
    (i : ℕ) (snapshot : Map Text Aggregate) (read : List StatusEvent) (s t : Sink)
    → IsQuiet s t
    → IsCurrent i snapshot read s
    → IsCurrent i snapshot read t
IsQuiet-IsCurrent i snapshot read s t q h =
    subst (λ (subs : Subs). AtMostOne i (λ ch. Shows (view_after (read ++ ch) snapshot) t.agg) subs)
      (sym q.same_subs)
      (AtMostOne-mono i _ _ s.subs
        (λ ch p.
          subst (λ (agg : Map Text Aggregate). Shows (view_after (read ++ ch) snapshot) agg)
            (sym q.same_agg) p)
        h)

refresh-IsCurrent :
    (i : ℕ) (snapshot : Map Text Aggregate) (read : List StatusEvent) (id : Text) (now : ℕ)
    (s : Sink)
    → IsCurrent i snapshot read s
    → IsCurrent i snapshot read (refresh id now s)
unfolding refresh refresh_locked
refresh-IsCurrent i snapshot read id now s h = elim (Bool-cases (is_changed a (lookup id s.agg))) [
  | inl t ↦
      subst
        (λ (b : Bool).
          IsCurrent i snapshot read (if b then publish_locked (one_changed id a) u else u))
        (sym t)
        (publish_locked-IsCurrent i snapshot read (one_changed id a) s.agg u
          (λ view. Shows-insert id a view s.agg) h)
  | inr f ↦
      subst
        (λ (b : Bool).
          IsCurrent i snapshot read (if b then publish_locked (one_changed id a) u else u))
        (sym f)
        (AtMostOne-mono i _ _ s.subs
          (λ ch. Shows-insert_same id a _ s.agg (renewed-unchanged id now s f)) h)
]
  where
    a : Aggregate
    a = renewed id now s

    u : Sink
    u = record s { agg = insert id a s.agg }

-- A sweep that collects nothing says nothing.
merge_none :
    (changes view : Map Text Aggregate) → (length changes == 0) ≡ true → merge changes view ≡ view
unfolding merge
merge_none [] view h = refl
merge_none (x ∷ changes) view h = ground arith

refresh_all-IsCurrent :
    (i : ℕ) (snapshot : Map Text Aggregate) (read : List StatusEvent) (now : ℕ) (s : Sink)
    → IsCurrent i snapshot read s
    → IsCurrent i snapshot read (refresh_all now s)
unfolding refresh_all merge
refresh_all-IsCurrent i snapshot read now s h = elim (Bool-cases (length changes == 0)) [
  | inl t ↦
      subst
        (λ (b : Bool).
          IsCurrent i snapshot read (if b then u else publish_locked (some_changed changes) u))
        (sym t)
        (AtMostOne-mono i _ _ u.subs
          (λ ch p.
            subst (λ (v : Map Text Aggregate). Shows v u.agg)
              (merge_none changes (view_after (read ++ ch) snapshot) t) (shown _ p))
          k)
  | inr f ↦
      subst
        (λ (b : Bool).
          IsCurrent i snapshot read (if b then u else publish_locked (some_changed changes) u))
        (sym f) (publish_locked-IsCurrent i snapshot read (some_changed changes) s.agg u shown k)
]
  where
    ids : Map Text (Unit {0})
    ids = monitor_ids_locked s

    changes : Map Text Aggregate
    changes = (refresh_each now ids [] s).0

    u : Sink
    u = (refresh_each now ids [] s).1

    shown : (view : Map Text Aggregate) → Shows view s.agg → Shows (merge changes view) u.agg
    shown view p = (refresh_each-Shows now ids [] view s p).0

    k : AtMostOne i (λ ch. Shows (view_after (read ++ ch) snapshot) s.agg) u.subs
    k =
        subst (AtMostOne i (λ ch. Shows (view_after (read ++ ch) snapshot) s.agg))
          (sym (refresh_each-Shows now ids [] s.agg s (λ j a e. e)).1) h

pub sweep-IsCurrent :
    (i : ℕ) (snapshot : Map Text Aggregate) (read : List StatusEvent) (now : ℕ) (s : Sink)
    → IsCurrent i snapshot read s
    → IsCurrent i snapshot read (sweep now s)
unfolding sweep
sweep-IsCurrent i snapshot read now s h =
    let t = forget_silent now s.state s in
    refresh_all-IsCurrent i snapshot read now t
      (IsQuiet-IsCurrent i snapshot read s t (forget_silent-IsQuiet now s.state s) h)

pub retain-IsCurrent :
    (i : ℕ) (snapshot : Map Text Aggregate) (read : List StatusEvent) (reg : MonitorRegistry)
    (now : ℕ) (s : Sink)
    → IsCurrent i snapshot read s
    → IsCurrent i snapshot read (retain reg now s)
unfolding retain
retain-IsCurrent i snapshot read reg now s h =
    let t = retain_each reg s.state s in
    let u = record t { agg = prune reg t.agg t.agg } in
    let k = IsQuiet-IsCurrent i snapshot read s t (retain_each-IsQuiet reg s.state s) h in
    let v = refresh_all now u in
    publish_locked-IsCurrent i snapshot read (reloaded reg.version) v.agg v (λ view p. p)
      (refresh_all-IsCurrent i snapshot read now u
        (AtMostOne-mono i _ _ t.subs (λ ch p. prune-Shows reg t.agg t.agg _ p) k))

pub on_monitor_event-IsCurrent :
    (i : ℕ) (snapshot : Map Text Aggregate) (read : List StatusEvent) (enabled : Bool) (now : ℕ)
    (reg : MonitorRegistry) (site id : Text) (ev : Event) (s : Sink)
    → IsCurrent i snapshot read s
    → IsCurrent i snapshot read (on_monitor_event enabled now reg site id ev s)
on_monitor_event-IsCurrent i snapshot read enabled now reg site id ev s h =
    by_way (on_monitor_event-Refreshed enabled now reg site id ev s)
  where
    by_way : {t : Sink} → Refreshed s t → IsCurrent i snapshot read t
    by_way (unseen q) = IsQuiet-IsCurrent i snapshot read s _ q h
    by_way (then_refresh j at u q e) =
        subst (IsCurrent i snapshot read) (sym e)
          (refresh-IsCurrent i snapshot read j at u (IsQuiet-IsCurrent i snapshot read s u q h))
