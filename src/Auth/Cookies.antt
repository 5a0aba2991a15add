-- ===== src/Auth/Cookies.antt =====
-- The signed cookies of internal/auth/session.go: what is encoded is decoded, and nothing else is accepted.
use prober.Prelude.{
  ℕ, ◌≡◌, ◌≢◌, refl, sym, ap, subst, ◌∙◌, ◌⊎◌, inl, inr, ◌↔◌, Bool, true, false, [], ◌∷◌, ◌++◌,
  Option, none, some, ◌==◌, ==_iff, if◌then◌else◌, Bool-cases, All, arith,
}
use prober.Prelude.Int.{ℤ, leb_ℤ}
use prober.Prelude.Maps.{Text, text_eq, ◌=?◌, =?_refl}
use prober.Auth.Claims.{dot}
use prober.Auth.Session.{
  Session, Flow, Codec, Decoded, refused, accepted, bad_signature, expired, cut, cut_with, sign,
  signed, encode, encode_payload, decode, decode_parts, decode_payload, unless_expired, decode_flow,
  decode_flow_parts, flow_of,
}

abbrev pub HasNoDot : Text → Type 0
HasNoDot = All (λ c. c ≢ dot)

-- What base64 without padding promises: no dot, and decoding undoes encoding.
pub record IsLawful (codec : Codec) : Type 0 where
  pub no_dot : (t : Text) → HasNoDot (codec.encode64 t)
  pub decode64-encode64 : (t : Text) → codec.decode64 (codec.encode64 t) ≡ some t

pub cut-append : (body sig : Text) → HasNoDot body → cut (body ++ dot ∷ sig) ≡ some (body, sig)
unfolding cut
cut-append [] sig h = refl
cut-append (c ∷ body) sig (n, h) =
    ap
      (λ (b : Bool).
        if b then some ([], body ++ dot ∷ sig) else cut_with c (cut (body ++ dot ∷ sig)))
      (other (Bool-cases (c == dot)))
    ∙ ap (cut_with c) (cut-append body sig h)
  where
    other : (c == dot ≡ true) ⊎ (c == dot ≡ false) → c == dot ≡ false
    other (inl t) = absurd (n ((==_iff c dot).0 t))
    other (inr f) = f

abbrev split_at : Text → Text → Option (Text × Text)
split_at body sig = some (body, sig)

cut_with-some :
    (c : ℕ) (o : Option (Text × Text)) (body sig : Text)
    → cut_with c o ≡ some (body, sig)
    → (rest : Text) × ((o ≡ some (rest, sig)) × (body ≡ c ∷ rest))
cut_with-some c none body sig h = cc
cut_with-some c (some (rest, s)) body sig h =
    let same_sig : s ≡ sig = cc in
    let same_body : c ∷ rest ≡ body = cc in
    (rest, (ap (λ (x : Text). some (rest, x)) same_sig, sym same_body))

pub cut-some :
    (token body sig : Text)
    → cut token ≡ some (body, sig)
    → (token ≡ body ++ dot ∷ sig) × HasNoDot body
unfolding cut
cut-some [] body sig h = cc
cut-some (c ∷ cs) body sig h = by_dot (Bool-cases (c == dot)) (cut-some cs)
  where
    at_dot :
        c ≡ dot → split_at [] cs ≡ some (body, sig) → (c ∷ cs ≡ body ++ dot ∷ sig) × HasNoDot body
    at_dot e f =
        let same_sig : cs ≡ sig = cc in
        let same_body : [] ≡ body = cc in
        subst (λ (b : Text). (c ∷ cs ≡ b ++ dot ∷ sig) × HasNoDot b) same_body
          (ap (λ (x : ℕ). x ∷ cs) e ∙ ap (λ (x : Text). dot ∷ x) same_sig, tt)

    later :
        c ≢ dot
        → ((b s : Text) → cut cs ≡ some (b, s) → (cs ≡ b ++ dot ∷ s) × HasNoDot b)
        → (rest : Text) × ((cut cs ≡ some (rest, sig)) × (body ≡ c ∷ rest))
        → (c ∷ cs ≡ body ++ dot ∷ sig) × HasNoDot body
    later n ih (rest, (found, e)) =
        let (split, free) = ih rest sig found in
        subst (λ (b : Text). (c ∷ cs ≡ b ++ dot ∷ sig) × HasNoDot b) (sym e)
          (ap (λ (x : Text). c ∷ x) split, (n, free))

    by_dot :
        (c == dot ≡ true) ⊎ (c == dot ≡ false)
        → ((b s : Text) → cut cs ≡ some (b, s) → (cs ≡ b ++ dot ∷ s) × HasNoDot b)
        → (c ∷ cs ≡ body ++ dot ∷ sig) × HasNoDot body
    by_dot (inl t) ih =
        at_dot ((==_iff c dot).0 t)
          (sym (ap (λ (b : Bool). if b then split_at [] cs else cut_with c (cut cs)) t) ∙ h)
    by_dot (inr f) ih =
        later (λ e. ground (arith, e, f)) ih
          (cut_with-some c (cut cs) body sig
            (sym (ap (λ (b : Bool). if b then split_at [] cs else cut_with c (cut cs)) f) ∙ h))

-- What a session cookie is: a body without a dot, a dot, and the signature of the body, where the body is the
-- encoding of a session that has not expired.
pub record IsSession (codec : Codec) (secret : Text) (now : ℤ) (token : Text) (s : Session)
    : Type 0 where
  pub body : Text
  pub payload : Text
  pub is_signed : token ≡ signed codec secret body
  pub no_dot : HasNoDot body
  pub encoded : codec.decode64 body ≡ some payload
  pub marshalled : codec.unmarshal_session payload ≡ some s
  pub is_live : leb_ℤ s.expires now ≡ false

-- What a state cookie is: a body without a dot, a dot, and the signature of the body, where the body is the
-- encoding of a flow.
pub record IsFlow (codec : Codec) (secret : Text) (token : Text) (f : Flow) : Type 0 where
  pub body : Text
  pub payload : Text
  pub is_signed : token ≡ signed codec secret body
  pub no_dot : HasNoDot body
  pub encoded : codec.decode64 body ≡ some payload
  pub marshalled : codec.unmarshal_flow payload ≡ some f

flow_of-some :
    (codec : Codec) (o : Option Text) (f : Flow)
    → flow_of codec o ≡ some f
    → (payload : Text) × ((o ≡ some payload) × (codec.unmarshal_flow payload ≡ some f))
flow_of-some codec none f h = cc
flow_of-some codec (some payload) f h = (payload, (refl, h))

decode_flow_parts-some :
    (codec : Codec) (secret : Text) (token : Text) (f : Flow) (o : Option (Text × Text))
    → cut token ≡ o
    → decode_flow_parts codec secret o ≡ some f
    → IsFlow codec secret token f
decode_flow_parts-some codec secret token f none e h = cc
decode_flow_parts-some codec secret token f (some (body, sig)) e h =
    by_signature (sig =? sign codec secret body) refl h
  where
    by_signature :
        (b : Bool)
        → (sig =? sign codec secret body) ≡ b
        → (if b then flow_of codec (codec.decode64 body) else none) ≡ some f
        → IsFlow codec secret token f
    by_signature false q k = cc
    by_signature true q k =
        let (split, free) = cut-some token body sig e in
        let (payload, (encoded, marshalled)) = flow_of-some codec (codec.decode64 body) f k in
        record {
          body = body;
          payload = payload;
          is_signed =
              split
              ∙ ap (λ (x : Text). body ++ dot ∷ x)
                  ((text_eq.beq_iff sig (sign codec secret body)).0 q);
          no_dot = free;
          encoded = encoded;
          marshalled = marshalled;
        }

-- What is decoded as a flow is one that is encoded and signed.
pub decode_flow-IsFlow :
    (codec : Codec) (secret : Text) (token : Text) (f : Flow)
    → decode_flow codec secret token ≡ some f
    → IsFlow codec secret token f
unfolding decode_flow
decode_flow-IsFlow codec secret token f h =
    decode_flow_parts-some codec secret token f (cut token) refl h

-- A token that is cut at its signature is decoded from its body.
decode-signed :
    (codec : Codec) (secret : Text) (now : ℤ) (body : Text)
    → HasNoDot body
    → decode codec secret now (signed codec secret body)
      ≡ decode_payload codec now (codec.decode64 body)
unfolding decode
decode-signed codec secret now body h =
    ap (decode_parts codec secret now) (cut-append body (sign codec secret body) h)
    ∙ ap
        (λ (b : Bool).
          if b then decode_payload codec now (codec.decode64 body) else refused bad_signature)
        (=?_refl (sign codec secret body))

-- The cookie of a session that encoding/json writes and reads back is accepted as that session, until it
-- expires.
pub decode-encode :
    (codec : Codec) (secret : Text) (now : ℤ) (s : Session) (payload : Text) (token : Text)
    → IsLawful codec
    → codec.marshal_session s ≡ some payload
    → codec.unmarshal_session payload ≡ some s
    → encode codec secret s ≡ some token
    → leb_ℤ s.expires now ≡ false
    → decode codec secret now token ≡ accepted s
unfolding encode
decode-encode codec secret now s payload token law written read made live =
    let same : signed codec secret (codec.encode64 payload) ≡ token =
      some_injective (sym (ap (encode_payload codec secret) written) ∙ made) in
    ap (decode codec secret now) (sym same)
    ∙ (decode-signed codec secret now (codec.encode64 payload) (law.no_dot payload)
        ∙ (ap (decode_payload codec now) (law.decode64-encode64 payload)
            ∙ (ap (unless_expired codec now) read
                ∙ ap (λ (b : Bool). if b then refused expired else accepted s) live)))
  where
    some_injective : {a b : Text} → some a ≡ some b → a ≡ b
    some_injective h = cc

-- Each error of `decode` that is passed gives one of the conditions.
unless_expired-accepted :
    (codec : Codec) (now : ℤ) (o : Option Session) (s : Session)
    → unless_expired codec now o ≡ accepted s
    → (o ≡ some s) × (leb_ℤ s.expires now ≡ false)
unless_expired-accepted codec now none s h = cc
unless_expired-accepted codec now (some r) s h = by_time (Bool-cases (leb_ℤ r.expires now))
  where
    by_time :
        (leb_ℤ r.expires now ≡ true) ⊎ (leb_ℤ r.expires now ≡ false)
        → (some r ≡ some s) × (leb_ℤ s.expires now ≡ false)
    by_time (inl t) =
        let bad : refused expired ≡ accepted s =
          sym (ap (λ (b : Bool). if b then refused expired else accepted r) t) ∙ h in
        cc
    by_time (inr f) =
        let good : accepted r ≡ accepted s =
          sym (ap (λ (b : Bool). if b then refused expired else accepted r) f) ∙ h in
        let same : r ≡ s = cc in
        (ap some same, subst (λ (x : Session). leb_ℤ x.expires now ≡ false) same f)

decode_payload-accepted :
    (codec : Codec) (now : ℤ) (o : Option Text) (s : Session)
    → decode_payload codec now o ≡ accepted s
    → (payload : Text) × ((o ≡ some payload)
        × (codec.unmarshal_session payload ≡ some s)
        × (leb_ℤ s.expires now ≡ false))
decode_payload-accepted codec now none s h = cc
decode_payload-accepted codec now (some payload) s h =
    let (read, live) = unless_expired-accepted codec now (codec.unmarshal_session payload) s h in
    (payload, (refl, read, live))

decode_parts-accepted :
    (codec : Codec) (secret : Text) (now : ℤ) (token : Text) (s : Session)
    (o : Option (Text × Text))
    → cut token ≡ o
    → decode_parts codec secret now o ≡ accepted s
    → IsSession codec secret now token s
decode_parts-accepted codec secret now token s none e h = cc
decode_parts-accepted codec secret now token s (some (body, sig)) e h =
    by_signature (Bool-cases (sig =? sign codec secret body)) (cut-some token body sig e)
  where
    chosen : Bool → Decoded Session
    chosen b = if b then decode_payload codec now (codec.decode64 body) else refused bad_signature

    held :
        sig ≡ sign codec secret body
        → (token ≡ body ++ dot ∷ sig) × HasNoDot body
        → (payload : Text) × ((codec.decode64 body ≡ some payload)
            × (codec.unmarshal_session payload ≡ some s)
            × (leb_ℤ s.expires now ≡ false))
        → IsSession codec secret now token s
    held same (split, free) (payload, (encoded, marshalled, live)) = record {
      body = body;
      payload = payload;
      is_signed = split ∙ ap (λ (x : Text). body ++ dot ∷ x) same;
      no_dot = free;
      encoded = encoded;
      marshalled = marshalled;
      is_live = live;
    }

    by_signature :
        (sig =? sign codec secret body ≡ true) ⊎ (sig =? sign codec secret body ≡ false)
        → (token ≡ body ++ dot ∷ sig) × HasNoDot body
        → IsSession codec secret now token s
    by_signature (inl t) parts =
        held ((text_eq.beq_iff sig (sign codec secret body)).0 t) parts
          (decode_payload-accepted codec now (codec.decode64 body) s (sym (ap chosen t) ∙ h))
    by_signature (inr f) parts =
        let bad : refused bad_signature ≡ accepted s = sym (ap chosen f) ∙ h in cc

IsSession-decode :
    (codec : Codec) (secret : Text) (now : ℤ) (token : Text) (s : Session)
    → IsSession codec secret now token s
    → decode codec secret now token ≡ accepted s
IsSession-decode codec secret now token s k =
    ap (decode codec secret now) k.is_signed
    ∙ (decode-signed codec secret now k.body k.no_dot
        ∙ (ap (decode_payload codec now) k.encoded
            ∙ (ap (unless_expired codec now) k.marshalled
                ∙ ap (λ (b : Bool). if b then refused expired else accepted s) k.is_live)))

-- `decode` accepts exactly the tokens that are a body without a dot, a dot and the signature of the body under
-- the secret, where the body is the encoding of a session that has not expired.
pub decode-IsSession :
    (codec : Codec) (secret : Text) (now : ℤ) (token : Text) (s : Session)
    → (decode codec secret now token ≡ accepted s) ↔ IsSession codec secret now token s
unfolding decode
decode-IsSession codec secret now token s = (
  decode_parts-accepted codec secret now token s (cut token) refl,
  IsSession-decode codec secret now token s,
)

-- The flow that `login` signs is read back.
pub decode_flow-encode_flow :
    (codec : Codec) (secret : Text) (f : Flow) (payload : Text)
    → IsLawful codec
    → codec.unmarshal_flow payload ≡ some f
    → decode_flow codec secret (signed codec secret (codec.encode64 payload)) ≡ some f
unfolding decode_flow
decode_flow-encode_flow codec secret f payload law read =
    let body = codec.encode64 payload in
    ap (decode_flow_parts codec secret)
      (cut-append body (sign codec secret body) (law.no_dot payload))
    ∙ (ap (λ (b : Bool). if b then flow_of codec (codec.decode64 body) else none)
          (=?_refl (sign codec secret body))
        ∙ (ap (flow_of codec) (law.decode64-encode64 payload) ∙ read))
