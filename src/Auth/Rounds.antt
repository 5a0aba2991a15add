-- ===== src/Auth/Rounds.antt =====
-- A whole login with internal/auth/auth.go: from the link to the provider and back, to the requests after it.
use prober.Prelude.{◌*◌, ◌≡◌, refl, ap, true, false, [], ◌∷◌, ◌++◌, some}
use prober.Prelude.Int.{ℤ, pos, leb_ℤ}
use prober.Prelude.Maps.{Text, text_eq, =?_refl}
use prober.Auth.Config.{second}
use prober.Auth.Claims.{Fields, User, user_from, authorize}
use prober.Auth.Session.{Session, Flow, Codec, Decoded, signed, encode, encode_payload, encode_flow}
use prober.Auth.Login.{
  Auth, IdToken, Provider, Callback, admit, session_for, login, callback, middleware,
  middleware_answer, session_full, session_or_none, redirected, passed_on, set_cookie, clear_cookie,
  state_cookie, flow_for, safe_return, done,
}
use prober.Auth.Cookies.{IsLawful, decode-encode, decode_flow-encode_flow}
use prober.Auth.Admission.{IsAdmitted-admit}

module _ (codec : Codec) (provider : Provider) (a : Auth) (now : ℤ) (code : Text) (f : Flow) where
  -- The user and the session that an ID token leads to.
  abbrev pub user_of : IdToken → Fields → User
  user_of id claims = user_from a.cfg.groups_claim id.subject claims

  abbrev pub session_of : Text → IdToken → Fields → Session
  session_of raw id claims =
      session_for codec provider a now (record { flow = f; raw = raw; user = user_of id claims })

  -- The provider answers the login with flow `f` with a code that gives a good ID token of an account that
  -- may sign in, and encoding/json reads what it wrote.
  pub record IsHonest : Type 0 where
    pub raw : Text
    pub id : IdToken
    pub claims : Fields
    pub flow_payload : Text
    pub payload : Text
    pub exchanged : provider.exchange code f.verifier ≡ some (some raw)
    pub verified : provider.verify raw ≡ some id
    pub same_nonce : id.nonce ≡ f.nonce
    pub decoded : id.claims ≡ some claims
    pub is_allowed : authorize a.cfg.allowed_groups (user_of id claims) ≡ true
    pub flow_written : codec.marshal_flow f ≡ some flow_payload
    pub flow_read : codec.unmarshal_flow flow_payload ≡ some f
    pub written : codec.marshal_session (session_of raw id claims) ≡ some payload
    pub read : codec.unmarshal_session payload ≡ some (session_of raw id claims)

  -- The value of the cookie that carries the flow.
  abbrev pub flow_value : IsHonest → Text
  flow_value h = signed codec a.cfg.cookie_secret (codec.encode64 h.flow_payload)

  -- What the provider sends the user back with.
  abbrev pub sent_back : IsHonest → Callback
  sent_back h = record {
    error = [];
    state = f.state;
    code = code;
    flow_cookie = some (flow_value h);
  }

  -- The value of the session cookie.
  abbrev pub session_value : IsHonest → Text
  session_value h = signed codec a.cfg.cookie_secret (codec.encode64 h.payload)

  callback-sent_back :
      (h : IsHonest)
      → IsLawful codec
      → a.ready ≡ true
      → callback codec provider a now (sent_back h) ≡ record {
        answer = redirected (a.base ++ f.return_to);
        cookies =
            clear_cookie a state_cookie
            ∷ set_cookie a a.cfg.cookie_name (session_value h) a.cfg.session_ttl
            ∷ [];
      }
  unfolding callback encode
  callback-sent_back h law ready = rw (ready, admits, h.written)
    where
      admits :
          admit codec provider a (sent_back h) (flow_value h)
          ≡ done (record { flow = f; raw = h.raw; user = user_of h.id h.claims })
      admits =
          IsAdmitted-admit codec provider a (sent_back h) (flow_value h)
            (record { flow = f; raw = h.raw; user = user_of h.id h.claims })
            record {
              id = h.id;
              claims = h.claims;
              is_flow =
                  decode_flow-encode_flow codec a.cfg.cookie_secret f h.flow_payload law
                    h.flow_read;
              same_state = =?_refl f.state;
              exchanged = h.exchanged;
              verified = h.verified;
              same_nonce = (text_eq.beq_iff h.id.nonce f.nonce).1 h.same_nonce;
              decoded = h.decoded;
              is_user = refl;
              is_allowed = h.is_allowed;
            }

  -- What the handler of a request sees of the session cookie that the callback sets.
  middleware-session_value :
      (h : IsHonest) (later : ℤ)
      → IsLawful codec
      → leb_ℤ (session_of h.raw h.id h.claims).expires later ≡ false
      → middleware codec a later (some (session_value h))
        ≡ record { answer = passed_on (user_of h.id h.claims); cookies = [] }
  unfolding middleware session_full encode
  middleware-session_value h later law live =
      ap
        (λ (d : Decoded Session).
          middleware_answer codec a (some (session_value h)) (session_or_none d))
        (decode-encode codec a.cfg.cookie_secret later (session_of h.raw h.id h.claims) h.payload
          (session_value h) law h.written h.read
          (ap (encode_payload codec a.cfg.cookie_secret) h.written) live)

-- A user who follows the link to sign in, at a provider that is ready, answers that login and names an account
-- that may sign in, is sent to the provider with a cookie that carries the flow; coming back with it, is sent
-- to where `safeReturn` leads, with a session cookie; and every request with that cookie is passed on as the
-- user's until the session expires.
pub login-callback-middleware :
    (codec : Codec) (provider : Provider) (a : Auth) (now later : ℤ)
    (return_to state nonce verifier code : Text)
    (h : IsHonest codec provider a now code (flow_for a return_to state nonce verifier))
    → IsLawful codec
    → a.ready ≡ true
    → leb_ℤ
        (session_of codec provider a now code
          (flow_for a return_to state nonce verifier)
          h.raw
          h.id
          h.claims).expires
        later
      ≡ false
    → (login codec provider a return_to state nonce verifier ≡ record {
      answer = redirected (provider.auth_code_url state nonce verifier);
      cookies =
          set_cookie a state_cookie
            (flow_value codec provider a now code (flow_for a return_to state nonce verifier) h)
            (pos (600 * second))
          ∷ [];
    })
      × (callback codec provider a now
            (sent_back codec provider a now code (flow_for a return_to state nonce verifier) h)
          ≡ record {
            answer = redirected (a.base ++ safe_return a.base return_to);
            cookies =
                clear_cookie a state_cookie
                ∷ set_cookie a a.cfg.cookie_name
                    (session_value codec provider a now code
                      (flow_for a return_to state nonce verifier)
                      h)
                    a.cfg.session_ttl
                ∷ [];
          })
      × (middleware codec a later (
            some (
              session_value codec provider a now code
                (flow_for a return_to state nonce verifier)
                h))
          ≡ record {
            answer = passed_on (
                user_of codec provider a now code
                  (flow_for a return_to state nonce verifier)
                  h.id
                  h.claims);
            cookies = [];
          })
unfolding login encode_flow
login-callback-middleware codec provider a now later return_to state nonce verifier code h law ready
      live =
    (
      rw (ready, h.flow_written),
      callback-sent_back codec provider a now code _ h law ready,
      middleware-session_value codec provider a now code _ h later law live,
    )
