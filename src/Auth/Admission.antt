-- ===== src/Auth/Admission.antt =====
-- Who the handlers of internal/auth/auth.go let in.
use prober.Prelude.{
  ◌≡◌, refl, sym, ap, subst, ◌∙◌, Bool, true, false, not, [], ◌++◌, Option, none, some,
  if◌then◌else◌,
}
use prober.Prelude.Int.{ℤ}
use prober.Prelude.Maps.{Text, text_eq, ◌=?◌}
use prober.Backend.Config.{is_blank}
use prober.Auth.Claims.{Fields, User, user_from, authorize}
use prober.Auth.Session.{Codec, encode, decode_flow}
use prober.Auth.Cookies.{IsFlow, decode_flow-IsFlow}
use prober.Auth.Login.{
  Auth, IdToken, Provider, Reason, Tried, fail, done, ◌>>=◌, ◌>>◌, or_fail, fail_if,
  bad_login_state, state_mismatch, nonce_mismatch, not_authorized, exchange_failed, no_id_token,
  bad_id_token, bad_claims, Callback, Admitted, admit, session_for, callback, callback_answer,
  callback_with, welcome, redirected, failed, not_ready, provider_refused,
}

or_fail_done {ℓ κ} :
    {A : Type ℓ} {B : Type κ} (e : Reason) (o : Option A) (f : A → Tried B) (b : B)
    → (or_fail e o >>= f) ≡ done b
    → (a : A) × ((o ≡ some a) × (f a ≡ done b))
or_fail_done e none f b h = cc
or_fail_done e (some a) f b h = (a, (refl, h))

fail_if_done {κ} :
    {B : Type κ} (c : Bool) (e : Reason) (m : Tried B) (b : B)
    → (fail_if (not c) e >> m) ≡ done b
    → (c ≡ true) × (m ≡ done b)
fail_if_done true e m b h = (refl, h)
fail_if_done false e m b h = cc

module _ (codec : Codec) (provider : Provider) (a : Auth) (r : Callback) (cookie : Text) where
  -- The flow is a login's of this server, its state came back, the provider gave a good ID token for its
  -- code and its verifier, with its nonce, and the account is in a group that may sign in.
  pub record IsAdmitted (ad : Admitted) : Type 0 where
    pub id : IdToken
    pub claims : Fields
    pub is_flow : decode_flow codec a.cfg.cookie_secret cookie ≡ some ad.flow
    pub same_state : r.state =? ad.flow.state ≡ true
    pub exchanged : provider.exchange r.code ad.flow.verifier ≡ some (some ad.raw)
    pub verified : provider.verify ad.raw ≡ some id
    pub same_nonce : id.nonce =? ad.flow.nonce ≡ true
    pub decoded : id.claims ≡ some claims
    pub is_user : user_from a.cfg.groups_claim id.subject claims ≡ ad.user
    pub is_allowed : authorize a.cfg.allowed_groups ad.user ≡ true

  pub IsAdmitted-admit : (ad : Admitted) → IsAdmitted ad → admit codec provider a r cookie ≡ done ad
  unfolding admit
  IsAdmitted-admit ad k = rw (
    k.is_flow, k.same_state, k.exchanged, k.verified, k.same_nonce, k.decoded, k.is_user,
    k.is_allowed,
  )

  admit_done : (ad : Admitted) → admit codec provider a r cookie ≡ done ad → IsAdmitted ad
  unfolding admit
  admit_done ad h =
      let (f, (is_flow, h1)) =
        or_fail_done bad_login_state (decode_flow codec a.cfg.cookie_secret cookie) _ ad h in
      let (same_state, h2) = fail_if_done (r.state =? f.state) state_mismatch _ ad h1 in
      let (token, (got, h3)) =
        or_fail_done exchange_failed (provider.exchange r.code f.verifier) _ ad h2 in
      let (raw, (given, h4)) = or_fail_done no_id_token token _ ad h3 in
      let (id, (verified, h5)) = or_fail_done bad_id_token (provider.verify raw) _ ad h4 in
      let (same_nonce, h6) = fail_if_done (id.nonce =? f.nonce) nonce_mismatch _ ad h5 in
      let (claims, (decoded, h7)) = or_fail_done bad_claims id.claims _ ad h6 in
      let user : User = user_from a.cfg.groups_claim id.subject claims in
      let (is_allowed, h8) =
        fail_if_done (authorize a.cfg.allowed_groups user) not_authorized _ ad h7 in
      let whole : Admitted = record { flow = f; raw = raw; user = user } in
      let built : IsAdmitted whole = record {
        id = id;
        claims = claims;
        is_flow = is_flow;
        same_state = same_state;
        exchanged = got ∙ ap some given;
        verified = verified;
        same_nonce = same_nonce;
        decoded = decoded;
        is_user = refl;
        is_allowed = is_allowed;
      } in
      subst IsAdmitted (done_injective h8) built
    where
      done_injective : {x y : Admitted} → done x ≡ done y → x ≡ y
      done_injective e = cc

-- What a redirect at the end of a login rests on.
pub record IsWelcome (codec : Codec) (provider : Provider) (a : Auth) (now : ℤ) (r : Callback)
    (url : Text) : Type 0 where
  pub cookie : Text
  pub admitted : Admitted
  pub token : Text
  pub is_ready : a.ready ≡ true
  pub no_error : is_blank r.error ≡ true
  pub has_cookie : r.flow_cookie ≡ some cookie
  pub is_signed : IsFlow codec a.cfg.cookie_secret cookie admitted.flow
  pub is_admitted : IsAdmitted codec provider a r cookie admitted
  pub has_token :
      encode codec a.cfg.cookie_secret (session_for codec provider a now admitted) ≡ some token
  pub goes_back : url ≡ a.base ++ admitted.flow.return_to

-- The callback of a login redirects only when the state cookie is the encoding of a flow, without a dot, with a
-- dot and its signature under the server's secret, the state that came back is the flow's, the provider gave an ID token that it vouches for in exchange for the code and
-- the flow's verifier, the token has the flow's nonce, and the account that its claims describe may sign in; and
-- then to the address of the flow.
pub callback-IsWelcome :
    (codec : Codec) (provider : Provider) (a : Auth) (now : ℤ) (r : Callback) (url : Text)
    → (callback codec provider a now r).answer ≡ redirected url
    → IsWelcome codec provider a now r url
unfolding callback
callback-IsWelcome codec provider a now r url h = by_ready a.ready (is_blank r.error) refl refl h
  where
    by_token :
        (cookie : Text) (ad : Admitted) (o : Option Text)
        → a.ready ≡ true
        → is_blank r.error ≡ true
        → r.flow_cookie ≡ some cookie
        → admit codec provider a r cookie ≡ done ad
        → encode codec a.cfg.cookie_secret (session_for codec provider a now ad) ≡ o
        → (welcome codec provider a ad o).answer ≡ redirected url
        → IsWelcome codec provider a now r url
    by_token cookie ad none e1 e2 e3 e4 e5 k = cc
    by_token cookie ad (some token) e1 e2 e3 e4 e5 k =
        let admission = admit_done codec provider a r cookie ad e4 in
        record {
          cookie = cookie;
          admitted = ad;
          token = token;
          is_ready = e1;
          no_error = e2;
          has_cookie = e3;
          is_signed = decode_flow-IsFlow codec a.cfg.cookie_secret cookie ad.flow admission.is_flow;
          is_admitted = admission;
          has_token = e5;
          goes_back = sym (redirected_injective k);
        }
      where
        redirected_injective :
            redirected (a.base ++ ad.flow.return_to) ≡ redirected url
            → a.base ++ ad.flow.return_to ≡ url
        redirected_injective e = cc

    by_admission :
        (cookie : Text) (m : Tried Admitted)
        → a.ready ≡ true
        → is_blank r.error ≡ true
        → r.flow_cookie ≡ some cookie
        → admit codec provider a r cookie ≡ m
        → (callback_answer codec provider a now m).answer ≡ redirected url
        → IsWelcome codec provider a now r url
    by_admission cookie (fail e) e1 e2 e3 e4 k = cc
    by_admission cookie (done ad) e1 e2 e3 e4 k = by_token cookie ad _ e1 e2 e3 e4 refl k

    by_cookie :
        (o : Option Text)
        → a.ready ≡ true
        → is_blank r.error ≡ true
        → r.flow_cookie ≡ o
        → (callback_with codec provider a now r o).answer ≡ redirected url
        → IsWelcome codec provider a now r url
    by_cookie none e1 e2 e3 k = cc
    by_cookie (some cookie) e1 e2 e3 k = by_admission cookie _ e1 e2 e3 refl k

    by_ready :
        (b c : Bool)
        → a.ready ≡ b
        → is_blank r.error ≡ c
        → (if not b
            then record { answer = failed not_ready; cookies = [] }
            else if not c
            then record { answer = failed provider_refused; cookies = [] }
            else callback_with codec provider a now r r.flow_cookie).answer
          ≡ redirected url
        → IsWelcome codec provider a now r url
    by_ready false c e1 e2 k = cc
    by_ready true false e1 e2 k = cc
    by_ready true true e1 e2 k = by_cookie r.flow_cookie e1 e2 refl k
