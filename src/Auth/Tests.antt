-- ===== src/Auth/Tests.antt =====
-- A small login with internal/auth. The codec stands for the standard library's: it only has to be one that
-- encoding/json and base64 could be.
use prober.Prelude.{
  ℕ, ◌+◌, ◌-◌, ◌*◌, ◌≡◌, ◌↔◌, ◌⊎◌, ◌≢◌, ◌≤◌, not, length, ◌∙◌, sym, refl, ap, inl, inr, Bool, true,
  false, List, [], ◌∷◌, ◌++◌, map, Option, none, some, arith,
}
use prober.Prelude.Int.{ℤ, pos, negsuc, ◌+ℤ◌}
use prober.Prelude.Maps.{Text, codes, text_eq}
use prober.Auth.Config.{Config, second, logout_local, apply_defaults, validate}
use prober.Auth.Claims.{
  User, json_text, json_list, item, no_items, field, no_fields, Fields, authorize, user_from,
}
use prober.Auth.Session.{Session, Flow, Codec, decode, accepted}
use prober.Auth.Login.{
  Auth, Provider, Callback, login, callback, middleware, redirected, passed_on, set_cookie,
  clear_cookie, state_cookie, flow_for, safe_return,
}
use prober.Auth.Cookies.{HasNoDot, IsLawful, IsSession, decode-IsSession}
use prober.Auth.Admission.{IsWelcome, callback-IsWelcome}
use prober.Auth.Rounds.{
  IsHonest, flow_value, session_value, sent_back, user_of, login-callback-middleware,
}
use prober.Auth.Groups.{IsIn, Carries, authorize-Carries}
use prober.Auth.Settings.{IsUsable}
use prober.Auth.Start.{new_auth, new_auth-IsUsable}
use prober.Backend.Config.{is_blank}

abbrev cfg : Config
cfg = record {
  issuer = codes "https://idp";
  client_id = codes "prober";
  client_secret = [];
  redirect_url = codes "https://p/cb";
  scopes = [];
  auth_url = [];
  token_url = [];
  jwks_url = [];
  timeout = pos 0;
  cookie_secret = codes "0123456789abcdef0123456789abcdef";
  cookie_name = codes "s";
  secure_cookie = some true;
  session_ttl = pos (100 * second);
  logout = logout_local;
  post_logout_redirect_url = [];
  allowed_groups = codes "ops" ∷ [];
  groups_claim = codes "groups";
}

abbrev server : Auth
server = record { cfg = cfg; base = codes "/p"; ready = true; logout_url = [] }

abbrev ann : User
ann = record { subject = codes "ann"; email = []; name = []; groups = codes "ops" ∷ [] }

abbrev ann_session : Session
ann_session = record { user = ann; expires = pos 150; id_token = [] }

abbrev flow : Flow
flow = flow_for server (codes "/m") (codes "st") (codes "no") (codes "ve")

abbrev codec : Codec
codec = record {
  mac = λ key body. 7 ∷ body;
  encode64 = map (λ c. c + 100);
  decode64 = λ t. some (map (λ c. c - 100) t);
  marshal_session = λ s. some s.user.subject;
  unmarshal_session = λ t. some ann_session;
  marshal_flow = λ f. some f.state;
  unmarshal_flow = λ t. some flow;
}

no_dot_in : (t : Text) → HasNoDot (codec.encode64 t)
no_dot_in [] = tt
no_dot_in (c ∷ cs) = (λ e. omega (arith, e), no_dot_in cs)

undone : (t : Text) → map (λ c. c - 100) (map (λ c. c + 100) t) ≡ t
undone [] = refl
undone (c ∷ cs) = ap2 (omega arith) (undone cs)
  where
    ap2 :
        c + 100 - 100 ≡ c
        → map (λ c. c - 100) (map (λ c. c + 100) cs) ≡ cs
        → (c + 100 - 100) ∷ map (λ c. c - 100) (map (λ c. c + 100) cs) ≡ c ∷ cs
    ap2 e f = cc

lawful : IsLawful codec
lawful = record { no_dot = no_dot_in; decode64-encode64 = λ t. ap some (undone t) }

abbrev claims : Fields
claims = field (codes "groups") (json_list (item (json_text (codes "ops")) no_items)) no_fields

abbrev provider : Provider
provider = record {
  auth_code_url = λ state nonce verifier. codes "https://idp/a";
  exchange = λ code verifier. some (some (codes "jwt"));
  verify = λ raw. some (record { subject = codes "ann"; nonce = codes "no"; claims = some claims });
}

unfoldable honest : IsHonest codec provider server (pos (50 * second)) (codes "c") flow
unfolding authorize user_from prober.Prelude.Int.◌+ℤ◌
honest = record {
  raw = codes "jwt";
  id = record { subject = codes "ann"; nonce = codes "no"; claims = some claims };
  claims = claims;
  flow_payload = codes "st";
  payload = codes "ann";
  exchanged = refl;
  verified = refl;
  same_nonce = refl;
  decoded = refl;
  is_allowed = refl;
  flow_written = refl;
  flow_read = refl;
  written = refl;
  read = refl;
}

login-callback-middleware_example :
    (login codec provider server (codes "/m") (codes "st") (codes "no") (codes "ve") ≡ record {
      answer = redirected (codes "https://idp/a");
      cookies =
          set_cookie server state_cookie
            (flow_value codec provider server (pos (50 * second)) (codes "c") flow honest)
            (pos (600 * second))
          ∷ [];
    })
    × (callback codec provider server
          (pos (50 * second))
          (sent_back codec provider server (pos (50 * second)) (codes "c") flow honest)
        ≡ record {
          answer = redirected (codes "/p" ++ safe_return (codes "/p") (codes "/m"));
          cookies =
              clear_cookie server state_cookie
              ∷ set_cookie server
                  (codes "s")
                  (session_value codec provider server (pos (50 * second)) (codes "c") flow honest)
                  (pos (100 * second))
              ∷ [];
        })
    × (middleware codec server
          (pos 149)
          (some (session_value codec provider server (pos (50 * second)) (codes "c") flow honest))
        ≡ record {
          answer = passed_on (
              user_of codec provider server
                (pos (50 * second))
                (codes "c")
                flow
                honest.id
                honest.claims);
          cookies = [];
        })
unfolding prober.Prelude.Int.◌+ℤ◌
login-callback-middleware_example =
    login-callback-middleware codec provider server (pos (50 * second)) (pos 149) (codes "/m")
      (codes "st") (codes "no") (codes "ve") (codes "c") honest lawful refl refl

abbrev back : Callback
back = sent_back codec provider server (pos (50 * second)) (codes "c") flow honest

redirects :
    (callback codec provider server (pos (50 * second)) back).answer ≡ redirected (codes "/p/m")
unfolding callback safe_return honest
redirects = refl

callback-IsWelcome_example : IsWelcome codec provider server (pos (50 * second)) back (codes "/p/m")
callback-IsWelcome_example =
    callback-IsWelcome codec provider server (pos (50 * second)) back (codes "/p/m") redirects

decode-IsSession_example :
    (decode codec cfg.cookie_secret (pos 149) (codes "x.y") ≡ accepted ann_session)
    ↔ IsSession codec cfg.cookie_secret (pos 149) (codes "x.y") ann_session
decode-IsSession_example =
    decode-IsSession codec cfg.cookie_secret (pos 149) (codes "x.y") ann_session

authorize-Carries_example :
    (authorize (codes "ops" ∷ []) (user_from (codes "groups") (codes "ann") claims) ≡ true) ↔ (
      (g : Text) × (IsIn g (codes "ops" ∷ [])
        × Carries (json_list (item (json_text (codes "ops")) no_items)) g))
authorize-Carries_example =
    authorize-Carries [] (codes "ops") (codes "groups") (codes "ann") claims
      (json_list (item (json_text (codes "ops")) no_items)) refl (inl refl)

abbrev random : Text
random = codes "fedcba9876543210fedcba9876543210"

-- The settings have a secret of their own, which the server keeps.
abbrev running : Auth
running = record {
  cfg = record cfg {
    scopes = codes "openid" ∷ codes "profile" ∷ codes "email" ∷ [];
    timeout = pos (10 * second);
  };
  base = codes "/p";
  ready = false;
  logout_url = [];
}

new_auth-IsUsable_example :
    IsUsable cfg
    × ((cfg.auth_url ≡ []) ⊎ (cfg.jwks_url ≢ []))
    × (running.ready ≡ not (is_blank cfg.auth_url))
    × (32 ≤ length running.cfg.cookie_secret)
    × (running.base ≡ codes "/p")
unfolding new_auth apply_defaults validate
new_auth-IsUsable_example = new_auth-IsUsable random (codes "/p") cfg running (omega arith) refl
