-- ===== src/Backend/Run/Sends.antt =====
-- The sends of internal/backend/run.go, which `emit` makes after it has unlocked, so that those of several
-- events mix.
use prober.Prelude.{
  ℕ, ◌+◌, ◌≡◌, ◌≤◌, refl, sym, ap, subst, ◌∙◌, Bool, true, false, List, [], ◌∷◌, ◌++◌, arith,
  length, length-append, ltb, ◌==◌, ==_iff, if◌then◌else◌, Bool-cases, inl, inr, Option, none, some,
}
use mathlib.Core.List.{append_assoc, append-nil}
use mathlib.Core.List.{Perm, perm_middle}
use mathlib.Core.List.Perm
use prober.Prelude.Picks.{take_at, Split, take_at-Split}
use prober.Backend.Run.{
  JobEvent, StreamEvent, Subscriber, Run, site_of, offer_to, sends, emit, with_subs, deliver,
  deliver_found, after, subscribe, capacity, Step, emits, delivers, step, and_then, steps,
}
use prober.Backend.Run.UnderWay.{
  after-append, under_way, under_way-append, IsNew, is_there, AllThere, sends-new, AllThere-append,
  AllThere-later, AllThere-sends, Offered, offer_to-there, AllThere-still, AllThere-split,
  neq_false,
}

-- The reader's channel and the sends on their way to it, with what is left of its room; and nothing is on
-- its way to a subscriber that is gone.
record Reads (n room : ℕ) (backlog : List StreamEvent) (sub : Subscriber) (r : Run) : Type 0 where
  new : List StreamEvent
  rest : List Subscriber
  is_first : r.subs ≡ (record sub { ch = new }) ∷ rest
  is_new : IsNew sub.id rest
  all_there : AllThere r.sending r.subs
  seen : n ≤ r.seq
  has_room : length new + length (under_way sub.id r.sending) + room ≤ capacity
  received : Perm (backlog ++ (new ++ under_way sub.id r.sending)) (after n r.buffer)

emit-Reads :
    (ev : JobEvent) (n room : ℕ) (backlog : List StreamEvent) (sub : Subscriber) (r : Run)
    → Reads n (room + 1) backlog sub r
    → Reads n room backlog sub (emit ev r)
unfolding emit
emit-Reads ev n room backlog sub r h = record {
  new = h.new;
  rest = h.rest;
  is_first = h.is_first;
  is_new = h.is_new;
  all_there =
      AllThere-append r.sending (sends se r.subs) r.subs h.all_there (AllThere-sends se r.subs);
  seen = omega (arith, h.seen);
  has_room = omega (
    arith,
    h.has_room,
    ap (λ (xs : List StreamEvent). length xs) goes,
    length-append (under_way sub.id r.sending) (se ∷ []),
  );
  received =
      subst
        (λ (xs : List StreamEvent). Perm (backlog ++ (h.new ++ xs)) (after n (r.buffer ++ se ∷ [])))
        (sym goes)
        (subst (λ (xs : List StreamEvent). Perm xs (after n (r.buffer ++ se ∷ []))) moved
          (subst
            (λ (xs : List StreamEvent).
              Perm ((backlog ++ (h.new ++ under_way sub.id r.sending)) ++ se ∷ []) xs)
            (sym comes) (Perm.append_right (se ∷ []) h.received)));
}
  where
    se : StreamEvent
    se = record { seq = r.seq + 1; site = site_of ev.job_id; event = ev }

    to_one : under_way sub.id (sends se ((record sub { ch = h.new }) ∷ h.rest)) ≡ se ∷ []
    to_one =
        let same : (sub.id == sub.id) ≡ true = (==_iff sub.id sub.id).1 refl in
        rw (same, sends-new sub.id se h.rest h.is_new) refl

    goes : under_way sub.id (r.sending ++ sends se r.subs) ≡ under_way sub.id r.sending ++ se ∷ []
    goes =
        under_way-append sub.id r.sending (sends se r.subs)
        ∙ ap (λ (xs : List StreamEvent). under_way sub.id r.sending ++ xs)
            (ap (λ (subs : List Subscriber). under_way sub.id (sends se subs)) h.is_first ∙ to_one)

    comes : after n (r.buffer ++ se ∷ []) ≡ after n r.buffer ++ se ∷ []
    comes =
        let later : ltb n (r.seq + 1) ≡ true = ground (arith, h.seen) in
        after-append n r.buffer (se ∷ []) ∙ rw later refl

    moved :
        (backlog ++ (h.new ++ under_way sub.id r.sending)) ++ se ∷ []
        ≡ backlog ++ (h.new ++ (under_way sub.id r.sending ++ se ∷ []))
    moved =
        append_assoc backlog (h.new ++ under_way sub.id r.sending) (se ∷ [])
        ∙ ap (λ (xs : List StreamEvent). backlog ++ xs)
            (append_assoc h.new (under_way sub.id r.sending) (se ∷ []))

-- A send under way goes through.
abbrev Sent : ℕ → ℕ → List StreamEvent → Subscriber → Option Run → Type 0
Sent n room backlog sub o = (t : Run) × (o ≡ some t) × Reads n room backlog sub t

-- A send to the reader itself.
own-Reads :
    (n room : ℕ) (backlog : List StreamEvent) (sub : Subscriber) (r : Run) (j : ℕ)
    (se : StreamEvent) (rest : List (ℕ × StreamEvent))
    → Split r.sending (j, se) rest
    → j ≡ sub.id
    → Reads n room backlog sub r
    → Sent n room backlog sub (with_subs rest r (offer_to j se r.subs))
own-Reads n room backlog sub r j se rest p same h = (
  record r { subs = grown ∷ h.rest; sending = rest },
  ap (with_subs rest r) (ap (offer_to j se) h.is_first ∙ offered),
  record {
    new = h.new ++ se ∷ [];
    rest = h.rest;
    is_first = refl;
    is_new = h.is_new;
    all_there =
        subst (λ (xs : List (ℕ × StreamEvent)). AllThere xs (grown ∷ h.rest)) (sym p.others)
          (AllThere-still (p.before ++ p.after) r.subs (grown ∷ h.rest)
            (λ k. ap (is_there k) (sym h.is_first))
            (AllThere-split p.before j se p.after r.subs
              (subst (λ (xs : List (ℕ × StreamEvent)). AllThere xs r.subs) p.whole h.all_there)).1);
    seen = h.seen;
    has_room = omega (
      arith,
      h.has_room,
      length_of whole,
      length_of others,
      length-append h.new (se ∷ []),
      length-append (way p.before) (se ∷ way p.after),
      length-append (way p.before) (way p.after),
    );
    received =
        Perm.trans
          (Perm.append_left backlog (
            subst (λ (xs : List StreamEvent). Perm xs (h.new ++ way r.sending))
              (sym (append_assoc h.new (se ∷ []) (way rest))) (Perm.append_left h.new moved)))
          h.received;
  },
)
  where
    way : List (ℕ × StreamEvent) → List StreamEvent
    way = under_way sub.id

    length_of : {xs ys : List StreamEvent} → xs ≡ ys → length xs ≡ length ys
    length_of e = ap (λ (zs : List StreamEvent). length zs) e

    grown : Subscriber
    grown = record sub { ch = h.new ++ se ∷ [] }

    found : (sub.id == j) ≡ true
    found = (==_iff sub.id j).1 (sym same)

    whole : way r.sending ≡ way p.before ++ se ∷ way p.after
    whole =
        let t : (j == sub.id) ≡ true = (==_iff j sub.id).1 same in
        ap way p.whole ∙ (under_way-append sub.id p.before ((j, se) ∷ p.after) ∙ rw t refl)

    others : way rest ≡ way p.before ++ way p.after
    others = ap way p.others ∙ under_way-append sub.id p.before p.after

    free : ltb (length h.new) capacity ≡ true
    free =
        ground (arith, h.has_room, length_of whole, length-append (way p.before) (se ∷ way p.after))

    offered : offer_to j se ((record sub { ch = h.new }) ∷ h.rest) ≡ some (grown ∷ h.rest)
    offered = rw (found, free) refl

    moved : Perm (se ∷ way rest) (way r.sending)
    moved =
        subst (λ (xs : List StreamEvent). Perm (se ∷ way rest) xs) (sym whole)
          (subst (λ (xs : List StreamEvent). Perm (se ∷ xs) (way p.before ++ se ∷ way p.after))
            (sym others) (Perm.symm (perm_middle (way p.before) (way p.after))))

-- A send to another subscriber.
other-Reads :
    (n room : ℕ) (backlog : List StreamEvent) (sub : Subscriber) (r : Run) (j : ℕ)
    (se : StreamEvent) (rest : List (ℕ × StreamEvent))
    → Split r.sending (j, se) rest
    → (j == sub.id) ≡ false
    → Reads n room backlog sub r
    → Sent n room backlog sub (with_subs rest r (offer_to j se r.subs))
other-Reads n room backlog sub r j se rest p differ h = (
  record r { subs = first ∷ o.left; sending = rest },
  ap (with_subs rest r) (ap (offer_to j se) h.is_first ∙ offered),
  record {
    new = h.new;
    rest = o.left;
    is_first = refl;
    is_new = o.new sub.id h.is_new;
    all_there =
        subst (λ (xs : List (ℕ × StreamEvent)). AllThere xs (first ∷ o.left)) (sym p.others)
          (AllThere-still (p.before ++ p.after) r.subs (first ∷ o.left)
            (λ k.
              ap (λ (b : Bool). if sub.id == k then true else b) (o.still k)
              ∙ ap (is_there k) (sym h.is_first))
            there.1);
    seen = h.seen;
    has_room = omega (arith, h.has_room, ap (λ (zs : List StreamEvent). length zs) same_way);
    received =
        subst (λ (xs : List StreamEvent). Perm (backlog ++ (h.new ++ xs)) (after n r.buffer))
          same_way h.received;
  },
)
  where
    first : Subscriber
    first = record sub { ch = h.new }

    missed : (sub.id == j) ≡ false
    missed = neq_false sub.id j (λ e.
        let t : (j == sub.id) ≡ true = (==_iff j sub.id).1 (sym e) in
        let bad : true ≡ false = sym t ∙ differ in cc)

    there : (is_there j r.subs ≡ true) × AllThere (p.before ++ p.after) r.subs
    there =
        AllThere-split p.before j se p.after r.subs
          (subst (λ (xs : List (ℕ × StreamEvent)). AllThere xs r.subs) p.whole h.all_there)

    o : Offered j se h.rest
    o = offer_to-there j se h.rest (
        sym (ap (λ (b : Bool). if b then true else is_there j h.rest) missed)
        ∙ (sym (ap (is_there j) h.is_first) ∙ there.0))

    offered : offer_to j se (first ∷ h.rest) ≡ some (first ∷ o.left)
    offered = rw (missed, o.offered) refl

    same_way : under_way sub.id r.sending ≡ under_way sub.id rest
    same_way =
        ap (under_way sub.id) p.whole
        ∙ (under_way-append sub.id p.before ((j, se) ∷ p.after)
            ∙ (rw differ (sym (under_way-append sub.id p.before p.after))
                ∙ ap (under_way sub.id) (sym p.others)))

deliver-Reads :
    (i n room : ℕ) (backlog : List StreamEvent) (sub : Subscriber) (r : Run)
    → Reads n room backlog sub r
    → Sent n room backlog sub (deliver i r)
unfolding deliver
deliver-Reads i n room backlog sub r h = by_pick (take_at i r.sending) (take_at-Split i r.sending)
  where
    by_pick :
        (o : Option ((ℕ × StreamEvent) × List (ℕ × StreamEvent)))
        → ((e : ℕ × StreamEvent) (rest : List (ℕ × StreamEvent))
            → o ≡ some (e, rest)
            → Split r.sending e rest)
        → Sent n room backlog sub (deliver_found r o)
    by_pick none k = (r, refl, h)
    by_pick (some ((j, se), rest)) k = elim (Bool-cases (j == sub.id)) [
      | inl t ↦
          own-Reads n room backlog sub r j se rest (k (j, se) rest refl) ((==_iff j sub.id).0 t) h
      | inr f ↦ other-Reads n room backlog sub r j se rest (k (j, se) rest refl) f h
    ]

-- The number of events that come in.
abbrev pub arrivals : List Step → ℕ
arrivals [] = 0
arrivals (emits ev ∷ ss) = arrivals ss + 1
arrivals (delivers i ∷ ss) = arrivals ss

steps-Reads :
    (ss : List Step) (n : ℕ) (backlog : List StreamEvent) (sub : Subscriber) (r : Run)
    → Reads n (arrivals ss) backlog sub r
    → Sent n 0 backlog sub (steps ss r)
unfolding step
steps-Reads [] n backlog sub r h = (r, refl, h)
steps-Reads (emits ev ∷ ss) n backlog sub r h =
    steps-Reads ss n backlog sub (emit ev r) (emit-Reads ev n (arrivals ss) backlog sub r h)
steps-Reads (delivers i ∷ ss) n backlog sub r h =
    let (t, e, k) = deliver-Reads i n (arrivals ss) backlog sub r h in
    let (u, f, l) = steps-Reads ss n backlog sub t k in
    (u, ap (λ (o : Option Run). and_then o (λ v. steps ss v)) e ∙ f, l)

-- What a reader has been given or is about to be: its backlog, its channel, and what is on its way.
abbrev pub Receives : ℕ → List StreamEvent → Subscriber → Run → Type 0
Receives n backlog sub r =
    (ch : List StreamEvent) × (rest : List Subscriber) × (r.subs ≡ (record sub { ch = ch }) ∷ rest)
    × Perm (backlog ++ (ch ++ under_way sub.id r.sending)) (after n r.buffer)

new-other :
    (id j : ℕ) (subs : List Subscriber) → IsNew id subs → is_there j subs ≡ true → (j == id) ≡ false
new-other id j [] m h = cc
new-other id j (sub ∷ subs) (n, m) h = elim (Bool-cases (sub.id == j)) [
  | inl t ↦ neq_false j id (λ e. n ((==_iff sub.id j).0 t ∙ e))
  | inr f ↦ new-other id j subs m (rw f at h)
]

-- Nothing is on its way to a number that nobody has.
none_yet :
    (id : ℕ) (xs : List (ℕ × StreamEvent)) (subs : List Subscriber)
    → IsNew id subs
    → AllThere xs subs
    → under_way id xs ≡ []
none_yet id [] subs m h = refl
none_yet id ((j, se) ∷ xs) subs m (h, hs) =
    let f = new-other id j subs m h in rw f (none_yet id xs subs m hs)

-- A reader subscribes under a new number to a run that is not done, having seen event `n` of it, while the sends
-- under way are to subscribers that are there. After up to 256 further events and any of the sends, in any order,
-- and as long as nobody leaves and the reader has received nothing, no send has failed; and the reader's backlog, its
-- channel and what is still on its way to it are the buffered events after `n`, each once, in whatever order.
pub steps-subscribe :
    (ss : List Step) (id n : ℕ) (r : Run)
    → r.done ≡ false
    → n ≤ r.seq
    → IsNew id r.subs
    → AllThere r.sending r.subs
    → arrivals ss ≤ capacity
    → (t : Run) × (steps ss (subscribe id n r).2 ≡ some t)
      × Receives n (subscribe id n r).0 (subscribe id n r).1 t
unfolding subscribe
steps-subscribe ss id n r open_ l fresh there b =
    let (t, e, k) = steps-Reads ss n (after n r.buffer) sub (subscribe id n r).2 begun in
    (t, e, (k.new, k.rest, k.is_first, k.received))
  where
    sub : Subscriber
    sub = record { id = id; ch = []; closed = r.done }

    registered : (if r.done then r.subs else sub ∷ r.subs) ≡ sub ∷ r.subs
    registered = ap (λ (c : Bool). if c then r.subs else sub ∷ r.subs) open_

    begun : Reads n (arrivals ss) (after n r.buffer) sub (subscribe id n r).2
    begun = record {
      new = [];
      rest = r.subs;
      is_first = registered;
      is_new = fresh;
      all_there =
          subst (AllThere r.sending) (sym registered) (AllThere-later r.sending sub r.subs there);
      seen = l;
      has_room = omega (
        arith,
        b,
        ap (λ (zs : List StreamEvent). length zs) (none_yet id r.sending r.subs fresh there),
      );
      received =
          subst (λ (xs : List StreamEvent). Perm (after n r.buffer ++ xs) (after n r.buffer))
            (sym (none_yet id r.sending r.subs fresh there))
            (subst (λ (xs : List StreamEvent). Perm xs (after n r.buffer)) (sym (append-nil _))
              (Perm.refl _));
    }
