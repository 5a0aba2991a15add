-- ===== src/Trace/Engine/Deliveries.antt =====
-- Which session of internal/trace/engine.go a reply reaches, and which identifier a run gets.
use prober.Prelude.{
  ℕ, ◌%◌, ◌≡◌, ◌≢◌, ◌<◌, refl, sym, ap, subst, ◌∙◌, inl, inr, Bool, true, false, ◌&&◌, ◌||◌, List,
  [], ◌∷◌, Option, none, some, length, leb, ◌==◌, if◌then◌else◌, Bool-cases, All, arith,
}
use prober.Prelude.Maps.{lookup, insert, nat_eq, lookup-insert, lookup-insert_self, lookup-delete}
use prober.Trace.Spec.{udp}
use prober.Trace.Probe.{ProbeKey, key_eq, key_beq, key_beq_iff, from_target, exceeded, unreachable}
use prober.Trace.Parse.{
  Ipv4Header, IcmpType, time_exceeded, dst_unreach, Answer, answer_to, answer_unreachable,
  is_port_unreachable, inner_key, parse_reply,
}
use prober.Trace.Parse.Quotes.{Quotes, IsDatagram, inner_key-Quotes}
use prober.Trace.Engine.{
  Engine, register, unregister, owner, Alloc, no_free_id, allocated, is_used, draw, alloc_id,
  deliver_to, delivery, read_one,
}

-- What other probes do to the table.
pub data Change : Type 0 where
  registers : ProbeKey → ℕ → Change
  unregisters : ProbeKey → Change

abbrev pub key_in : Change → ProbeKey
key_in (registers k s) = k
key_in (unregisters k) = k

abbrev pub apply_change : Change → Engine → Engine
apply_change (registers k s) e = register k s e
apply_change (unregisters k) e = unregister k e

abbrev pub apply_all : List Change → Engine → Engine
apply_all [] e = e
apply_all (c ∷ changes) e = apply_all changes (apply_change c e)

other_key : (j k : ProbeKey) → j ≢ k → key_beq j k ≡ false
other_key j k n = elim (Bool-cases (key_beq j k)) [
  | inl t ↦ absurd (n ((key_beq_iff j k).0 t))
  | inr f ↦ f
]

owner-apply_change :
    (k : ProbeKey) (c : Change) (e : Engine) → key_in c ≢ k → owner k (apply_change c e) ≡ owner k e
unfolding owner register unregister
owner-apply_change k (registers j s) e n =
    lookup-insert j k s e.probes
    ∙ ap (λ (b : Bool). if b then some s else lookup k e.probes) (other_key j k n)
owner-apply_change k (unregisters j) e n =
    lookup-delete j k e.probes
    ∙ ap (λ (b : Bool). if b then none else lookup k e.probes) (other_key j k n)

owner-apply_all :
    (k : ProbeKey) (changes : List Change) (e : Engine)
    → All (λ c. key_in c ≢ k) changes
    → owner k (apply_all changes e) ≡ owner k e
owner-apply_all k [] e h = refl
owner-apply_all k (c ∷ changes) e (n, h) =
    owner-apply_all k changes (apply_change c e) h ∙ owner-apply_change k c e n

owner-register : (k : ProbeKey) (s : ℕ) (e : Engine) → owner k (register k s e) ≡ some s
unfolding owner register
owner-register k s e = lookup-insert_self k s e.probes

-- A session has registered the key of its probe, and other probes come and go under other keys. Then an ICMP error
-- that quotes the probe is delivered to that session under the probe's key: a time exceeded as that, and a
-- destination unreachable as the target's answer if it says that the port of a UDP probe is unreachable, and as
-- unreachable otherwise.
pub read_one-register :
    {parse_header : List ℕ → Option Ipv4Header} {v6 : Bool} {k : ProbeKey} {proto : ℕ}
    {tp data_ : List ℕ} (s code : ℕ) (type : IcmpType) (e : Engine) (changes : List Change)
    → Quotes v6 k proto tp
    → IsDatagram parse_header proto tp v6 data_
    → All (λ c. key_in c ≢ k) changes
    → (read_one parse_header
          (some (record { type = type; code = code; body = time_exceeded data_ }))
          v6
          (apply_all changes (register k s e))
        ≡ some (s, record { key = k; kind = exceeded; code = code }))
      × (read_one parse_header
            (some (record { type = type; code = code; body = dst_unreach data_ }))
            v6
            (apply_all changes (register k s e))
          ≡ some (
            s,
            record {
              key = k;
              kind =
                  if is_port_unreachable v6 code && k.proto == udp
                  then from_target
                  else unreachable;
              code = code;
            },
          ))
unfolding read_one parse_reply
read_one-register {parse_header = parse_header} {v6 = v6} {k = k} {data_ = data_} s code type e
      changes q d h =
    (
      ap (λ (o : Option ProbeKey). delivery (answer_to exceeded code o) later) found
          ∙ reaches (record { key = k; kind = exceeded; code = code }) refl,
      ap (λ (o : Option ProbeKey). delivery (answer_unreachable v6 code o) later) found
          ∙ reaches
              (record {
                key = k;
                kind =
                    if is_port_unreachable v6 code && k.proto == udp
                    then from_target
                    else unreachable;
                code = code;
              })
              refl,
    )
  where
    later : Engine
    later = apply_all changes (register k s e)

    found : inner_key parse_header data_ v6 ≡ some k
    found = inner_key-Quotes q d

    reaches : (a : Answer) → a.key ≡ k → delivery (some a) later ≡ some (s, a)
    reaches a same =
        ap (λ (o : Option ℕ). deliver_to o a)
          (ap (λ (j : ProbeKey). owner j later) same
            ∙ (owner-apply_all k changes (register k s e) h ∙ owner-register k s e))

-- An identifier that nothing uses and that is not 0.
abbrev pub IsFree : ℕ → Engine → Type 0
IsFree id e = (lookup id e.ids ≡ none) × (id ≢ 0) × (id < 65536)

-- A number that the loop does not skip is free.
unskipped-IsFree :
    (o : Option (Unit {0})) (i : ℕ) → is_used o || i == 0 ≡ false → (o ≡ none) × (i ≢ 0)
unskipped-IsFree none i h = (refl, λ e. ground (arith, h, e))
unskipped-IsFree (some u) i h = cc

draw-IsFree :
    (rs : List ℕ) (e f : Engine) (id : ℕ)
    → draw rs e ≡ allocated id f
    → IsFree id e × (lookup id f.ids ≡ some tt)
unfolding draw
draw-IsFree [] e f id h = cc
draw-IsFree (r ∷ rs) e f id h =
    elim (Bool-cases (is_used (lookup (r % 65536) e.ids) || r % 65536 == 0)) [
      | inl t ↦ draw-IsFree rs e f id (sym (ap chosen t) ∙ h)
      | inr n ↦
          let got : allocated i taken ≡ allocated id f = sym (ap chosen n) ∙ h in
          let same : i ≡ id = cc in
          let same_engine : taken ≡ f = cc in
          let (unused, nonzero) = unskipped-IsFree (lookup i e.ids) i n in
          subst (λ (j : ℕ). IsFree j e × (lookup j f.ids ≡ some tt)) same
            (
              (unused, nonzero, omega arith),
              subst (λ (g : Engine). lookup i g.ids ≡ some tt) same_engine
                  (lookup-insert_self i tt e.ids),
            )
    ]
  where
    i : ℕ
    i = r % 65536

    taken : Engine
    taken = record e { ids = insert i tt e.ids }

    chosen : Bool → Alloc
    chosen b = if b then draw rs e else allocated i taken

-- What `allocID` gives out is a 16-bit identifier other than 0 that no run had, and the run has it from then on.
pub alloc_id-IsFree :
    (rs : List ℕ) (e f : Engine) (id : ℕ)
    → alloc_id rs e ≡ allocated id f
    → IsFree id e × (lookup id f.ids ≡ some tt)
unfolding alloc_id
alloc_id-IsFree rs e f id h = by_limit (leb 60000 (length e.ids)) h
  where
    by_limit :
        (b : Bool)
        → (if b then no_free_id else draw rs e) ≡ allocated id f
        → IsFree id e × (lookup id f.ids ≡ some tt)
    by_limit true k = cc
    by_limit false k = draw-IsFree rs e f id k
