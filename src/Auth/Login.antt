-- ===== src/Auth/Login.antt =====
-- internal/auth/auth.go: the handlers of signing in, of signing out and of every request that needs a session.
-- A handler takes what it reads of its request and gives the answer with the cookies that it sets.
use prober.Prelude.{
  ℕ, ◌*◌, ◌/◌, Bool, true, false, ◌&&◌, ◌||◌, not, List, [], ◌∷◌, ◌++◌, Option, none, some, ◌==◌,
  if◌then◌else◌,
}
use prober.Prelude.Int.{ℤ, pos, negsuc, ◌+ℤ◌}
use prober.Prelude.Maps.{Text, codes, text_eq, ◌=?◌}
use prober.Backend.Config.{is_blank}
use prober.Backend.Gateway.{has_prefix}
use prober.Auth.Config.{Config, logout_provider, second}
use prober.Auth.Claims.{Fields, User, user_from, authorize}
use prober.Auth.Session.{
  Session, Flow, Codec, Decoded, refused, accepted, encode, decode, encode_flow, decode_flow,
  cookie_path,
}

pub record Auth : Type 0 where
  pub cfg : Config
  pub base : Text
  pub ready : Bool
  pub logout_url : Text

pub record IdToken : Type 0 where
  pub subject : Text
  pub nonce : Text
  pub claims : Option Fields  -- `none` if they cannot be decoded

-- The identity provider, as go-oidc and oauth2 reach it: the address that a user is sent to for a state, a
-- nonce and a verifier, the exchange of a code and a verifier, whose token may carry no ID token, and the
-- check of an ID token. `none` is an error.
pub record Provider : Type 0 where
  pub auth_code_url : Text → Text → Text → Text
  pub exchange : Text → Text → Option (Option Text)
  pub verify : Text → Option IdToken

pub data Reason : Type 0 where
  not_ready provider_refused no_login bad_login_state state_mismatch exchange_failed no_id_token :
      Reason
  bad_id_token nonce_mismatch bad_claims not_authorized not_encoded no_session : Reason

unfoldable pub status : Reason → ℕ
status not_ready = 503
status provider_refused = 403
status no_login = 400
status bad_login_state = 400
status state_mismatch = 400
status exchange_failed = 500
status no_id_token = 500
status bad_id_token = 403
status nonce_mismatch = 403
status bad_claims = 403
status not_authorized = 403
status not_encoded = 500
status no_session = 401

pub data Tried {ℓ} (A : Type ℓ) : Type ℓ where
  fail : Reason → Tried A
  done : A → Tried A

infixl 5 ◌>>=◌ ◌>>◌
abbrev pub ◌>>=◌ {ℓ κ} : {A : Type ℓ} {B : Type κ} → Tried A → (A → Tried B) → Tried B
done a >>= f = f a
fail e >>= f = fail e

abbrev pub ◌>>◌ {ℓ κ} : {A : Type ℓ} {B : Type κ} → Tried A → Tried B → Tried B
m >> k = m >>= λ _. k

abbrev pub or_fail {ℓ} : {A : Type ℓ} → Reason → Option A → Tried A
or_fail e none = fail e
or_fail e (some a) = done a

abbrev pub fail_if : Bool → Reason → Tried (Unit {0})
fail_if true e = fail e
fail_if false e = done tt

-- A `Set-Cookie`. A negative age, in nanoseconds, deletes the cookie.
pub record Cookie : Type 0 where
  pub name : Text
  pub value : Text
  pub path : Text
  pub secure : Option Bool
  pub max_age : ℤ

unfoldable pub set_cookie : Auth → Text → Text → ℤ → Cookie
unfolding cookie_path
set_cookie a name value ttl = record {
  name = name;
  value = value;
  path = cookie_path a.base;
  secure = a.cfg.secure_cookie;
  max_age = ttl;
}

unfoldable pub clear_cookie : Auth → Text → Cookie
unfolding cookie_path
clear_cookie a name = record {
  name = name;
  value = [];
  path = cookie_path a.base;
  secure = a.cfg.secure_cookie;
  max_age = negsuc 0;
}

pub data Answer : Type 0 where
  failed : Reason → Answer
  redirected : Text → Answer
  shows_user : User → Answer
  -- The user is signed out; with the ID token that the provider's address for signing out carries, if it is given.
  signed_out : Option Text → Answer
  passed_on : User → Answer

pub record Response : Type 0 where
  pub answer : Answer
  pub cookies : List Cookie

abbrev pub slash : ℕ
slash = 47

-- `strings.CutPrefix`.
abbrev pub cut_prefix : Text → Text → Option Text
cut_prefix [] t = some t
cut_prefix (p ∷ ps) [] = none
cut_prefix (p ∷ ps) (c ∷ cs) = if p == c then cut_prefix ps cs else none

abbrev pub after_prefix : Text → Option Text → Text
after_prefix p none = p
after_prefix p (some rest) = slash ∷ rest

unfoldable pub safe_return : Text → Text → Text
safe_return base p =
    if is_blank p || not (has_prefix (codes "/") p) || has_prefix (codes "//") p
    then codes "/"
    else if is_blank base
    then p
    else if p =? base
    then codes "/"
    else after_prefix p (cut_prefix (base ++ codes "/") p)

abbrev pub state_cookie : Text
state_cookie = codes "prober_oidc"

-- The seconds of an instant or a duration in nanoseconds, rounded down.
abbrev pub to_unix : ℤ → ℤ
to_unix (pos n) = pos (n / second)
to_unix (negsuc n) = negsuc (n / second)

-- What `callback` reads of the request.
pub record Callback : Type 0 where
  pub error : Text
  pub state : Text
  pub code : Text
  pub flow_cookie : Option Text

-- The flow of the login and the user, with the ID token as it came.
pub record Admitted : Type 0 where
  pub flow : Flow
  pub raw : Text
  pub user : User

-- The flow of a login; the state, the nonce and the verifier are random.
abbrev pub flow_for : Auth → Text → Text → Text → Text → Flow
flow_for a return_to state nonce verifier = record {
  state = state;
  nonce = nonce;
  verifier = verifier;
  return_to = safe_return a.base return_to;
}

module _ (codec : Codec) (provider : Provider) where
  abbrev pub login_answer : Auth → Flow → Option Text → Response
  login_answer a f none = record { answer = failed not_encoded; cookies = [] }
  login_answer a f (some value) = record {
    answer = redirected (provider.auth_code_url f.state f.nonce f.verifier);
    cookies = set_cookie a state_cookie value (pos (600 * second)) ∷ [];
  }

  unfoldable pub login : Auth → Text → Text → Text → Text → Response
  unfolding safe_return encode_flow set_cookie
  login a return_to state nonce verifier =
      let f = flow_for a return_to state nonce verifier in
      if a.ready
      then login_answer a f (encode_flow codec a.cfg.cookie_secret f)
      else record { answer = failed not_ready; cookies = [] }

  unfoldable pub admit : Auth → Callback → Text → Tried Admitted
  unfolding decode_flow user_from authorize
  admit a r cookie = do
    f ← or_fail bad_login_state (decode_flow codec a.cfg.cookie_secret cookie)
    fail_if (not (r.state =? f.state)) state_mismatch
    token ← or_fail exchange_failed (provider.exchange r.code f.verifier)
    raw ← or_fail no_id_token token
    id ← or_fail bad_id_token (provider.verify raw)
    fail_if (not (id.nonce =? f.nonce)) nonce_mismatch
    claims ← or_fail bad_claims id.claims
    let user = user_from a.cfg.groups_claim id.subject claims
    fail_if (not (authorize a.cfg.allowed_groups user)) not_authorized
    done (record { flow = f; raw = raw; user = user })

  abbrev pub session_for : Auth → ℤ → Admitted → Session
  session_for a now ad = record {
    user = ad.user;
    expires = to_unix (now +ℤ a.cfg.session_ttl);
    id_token = if a.cfg.logout =? logout_provider then ad.raw else [];
  }

  abbrev pub welcome : Auth → Admitted → Option Text → Response
  welcome a ad none = record {
    answer = failed not_encoded;
    cookies = clear_cookie a state_cookie ∷ [];
  }
  welcome a ad (some token) = record {
    answer = redirected (a.base ++ ad.flow.return_to);
    cookies =
        clear_cookie a state_cookie ∷ set_cookie a a.cfg.cookie_name token a.cfg.session_ttl ∷ [];
  }

  abbrev pub callback_answer : Auth → ℤ → Tried Admitted → Response
  callback_answer a now (fail e) = record {
    answer = failed e;
    cookies = clear_cookie a state_cookie ∷ [];
  }
  callback_answer a now (done ad) =
      welcome a ad (encode codec a.cfg.cookie_secret (session_for a now ad))

  abbrev pub callback_with : Auth → ℤ → Callback → Option Text → Response
  callback_with a now r none = record { answer = failed no_login; cookies = [] }
  callback_with a now r (some cookie) = callback_answer a now (admit a r cookie)

  -- `now` is in nanoseconds.
  unfoldable pub callback : Auth → ℤ → Callback → Response
  unfolding admit encode set_cookie clear_cookie
  callback a now r =
      if not a.ready
      then record { answer = failed not_ready; cookies = [] }
      else if not (is_blank r.error)
      then record { answer = failed provider_refused; cookies = [] }
      else callback_with a now r r.flow_cookie

abbrev pub session_or_none : Decoded Session → Option Session
session_or_none (refused e) = none
session_or_none (accepted s) = some s

module _ (codec : Codec) where
  -- `sessionFull`, of the value of the session cookie. `now` is in Unix seconds.
  unfoldable pub session_full : Auth → ℤ → Option Text → Option Session
  unfolding decode
  session_full a now none = none
  session_full a now (some token) = session_or_none (decode codec a.cfg.cookie_secret now token)

  abbrev pub me_answer : Option Session → Response
  me_answer none = record { answer = failed no_session; cookies = [] }
  me_answer (some s) = record { answer = shows_user s.user; cookies = [] }

  unfoldable pub me : Auth → ℤ → Option Text → Response
  unfolding session_full
  me a now cookie = me_answer (session_full a now cookie)

  abbrev pub stale_cookies : Auth → Option Text → List Cookie
  stale_cookies a none = []
  stale_cookies a (some token) = clear_cookie a a.cfg.cookie_name ∷ []

  abbrev pub middleware_answer : Auth → Option Text → Option Session → Response
  middleware_answer a cookie none = record {
    answer = failed no_session;
    cookies = stale_cookies a cookie;
  }
  middleware_answer a cookie (some s) = record { answer = passed_on s.user; cookies = [] }

  unfoldable pub middleware : Auth → ℤ → Option Text → Response
  unfolding session_full clear_cookie
  middleware a now cookie = middleware_answer a cookie (session_full a now cookie)

  abbrev pub provider_logout : Auth → Option Session → Option Text
  provider_logout a none = none
  provider_logout a (some s) =
      if a.cfg.logout =? logout_provider && not (is_blank a.logout_url)
      then some s.id_token
      else none

  unfoldable pub logout : Auth → ℤ → Option Text → Response
  unfolding session_full clear_cookie
  logout a now cookie = record {
    answer = signed_out (provider_logout a (session_full a now cookie));
    cookies = clear_cookie a a.cfg.cookie_name ∷ [];
  }
