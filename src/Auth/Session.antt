-- ===== src/Auth/Session.antt =====
-- internal/auth/session.go: the signed cookie that carries the user. The message authentication code, the
-- encodings and the JSON of the standard library are the fields of a `Codec`. Times are in Unix seconds.
use prober.Prelude.{ℕ, [], ◌∷◌, ◌++◌, Option, none, some, ◌==◌, if◌then◌else◌}
use prober.Prelude.Int.{ℤ, leb_ℤ}
use prober.Prelude.Maps.{Text, codes, text_eq, ◌=?◌}
use prober.Backend.Config.{is_blank}
use prober.Auth.Claims.{User, dot}

pub record Session : Type 0 where
  pub user : User
  pub expires : ℤ
  pub id_token : Text

-- The state that a login carries across the redirect to the provider.
pub record Flow : Type 0 where
  pub state : Text
  pub nonce : Text
  pub verifier : Text
  pub return_to : Text

-- `mac` is HMAC-SHA256 under a key, `encode64` and `decode64` are `base64.RawURLEncoding`, and the others
-- `json.Marshal` and `json.Unmarshal`, which give `none` for an error.
pub record Codec : Type 0 where
  pub mac : Text → Text → Text
  pub encode64 : Text → Text
  pub decode64 : Text → Option Text
  pub marshal_session : Session → Option Text
  pub unmarshal_session : Text → Option Session
  pub marshal_flow : Flow → Option Text
  pub unmarshal_flow : Text → Option Flow

pub data SessionError : Type 0 where
  malformed bad_signature bad_encoding bad_payload expired : SessionError

pub data Decoded {ℓ} (A : Type ℓ) : Type ℓ where
  refused : SessionError → Decoded A
  accepted : A → Decoded A

-- `strings.Cut(token, ".")`.
abbrev pub cut_with : ℕ → Option (Text × Text) → Option (Text × Text)
cut_with c none = none
cut_with c (some (body, sig)) = some (c ∷ body, sig)

unfoldable pub cut : Text → Option (Text × Text)
cut [] = none
cut (c ∷ cs) = let rest = cut cs in if c == dot then some ([], cs) else cut_with c rest

module _ (codec : Codec) where
  unfoldable pub sign : Text → Text → Text
  sign secret body = codec.encode64 (codec.mac secret body)

  abbrev pub signed : Text → Text → Text
  signed secret body = body ++ dot ∷ sign secret body

  abbrev pub encode_payload : Text → Option Text → Option Text
  encode_payload secret none = none
  encode_payload secret (some payload) = some (signed secret (codec.encode64 payload))

  unfoldable pub encode : Text → Session → Option Text
  unfolding sign
  encode secret s = encode_payload secret (codec.marshal_session s)

  abbrev pub unless_expired : ℤ → Option Session → Decoded Session
  unless_expired now none = refused bad_payload
  unless_expired now (some s) = if leb_ℤ s.expires now then refused expired else accepted s

  abbrev pub decode_payload : ℤ → Option Text → Decoded Session
  decode_payload now none = refused bad_encoding
  decode_payload now (some payload) = unless_expired now (codec.unmarshal_session payload)

  abbrev pub decode_parts : Text → ℤ → Option (Text × Text) → Decoded Session
  decode_parts secret now none = refused malformed
  decode_parts secret now (some (body, sig)) =
      if sig =? sign secret body
      then decode_payload now (codec.decode64 body)
      else refused bad_signature

  unfoldable pub decode : Text → ℤ → Text → Decoded Session
  unfolding sign cut
  decode secret now token = decode_parts secret now (cut token)

  abbrev pub flow_of : Option Text → Option Flow
  flow_of none = none
  flow_of (some payload) = codec.unmarshal_flow payload

  abbrev pub decode_flow_parts : Text → Option (Text × Text) → Option Flow
  decode_flow_parts secret none = none
  decode_flow_parts secret (some (body, sig)) =
      if sig =? sign secret body then flow_of (codec.decode64 body) else none

  -- `none` for an error.
  unfoldable pub decode_flow : Text → Text → Option Flow
  unfolding sign cut
  decode_flow secret token = decode_flow_parts secret (cut token)

  -- The cookie that `login` sets: a flow, encoded and signed as a session is.
  unfoldable pub encode_flow : Text → Flow → Option Text
  unfolding sign
  encode_flow secret f = encode_payload secret (codec.marshal_flow f)

-- The path that the cookies are scoped to.
unfoldable pub cookie_path : Text → Text
cookie_path base = if is_blank base then codes "/" else base ++ codes "/"
