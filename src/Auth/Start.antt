-- ===== src/Auth/Start.antt =====
-- internal/auth/auth.go: `New`, and the waits between the attempts at discovery.
use prober.Prelude.{
  ℕ, ◌*◌, ◌≡◌, ◌≢◌, ◌≤◌, refl, sym, ap, subst, ◌⊎◌, inl, inr, ◌↔◌, Bool, true, false, ◌&&◌, not, [],
  ◌∷◌, Option, none, some, length, ltb, if◌then◌else◌,
}
use prober.Prelude.Maps.{Text}
use prober.Backend.Config.{is_blank}
use prober.Auth.Config.{Config, ConfigError, apply_defaults, validate, validated, second}
use prober.Auth.Login.{Auth}
use prober.Auth.Settings.{IsUsable, validated-IsUsable, blank_iff}

pub data Started : Type 0 where
  not_started : ConfigError → Started
  jwks_url_required : Started
  started : Auth → Started

abbrev pub with_secret : Text → Config → Config
with_secret random c = record c {
  cookie_secret = if is_blank c.cookie_secret then random else c.cookie_secret;
}

-- With the endpoints by hand the server is ready at once; otherwise it is when the provider has been discovered.
abbrev pub started_with : Text → Config → Option ConfigError → Started
started_with base c (some e) = not_started e
started_with base c none =
    if not (is_blank c.auth_url) && is_blank c.jwks_url
    then jwks_url_required
    else started record { cfg = c; base = base; ready = not (is_blank c.auth_url); logout_url = [] }

-- `random` is what `randString` gives.
unfoldable pub new_auth : Text → Config → Text → Started
unfolding apply_defaults validate
new_auth random c base =
    started_with base (with_secret random (apply_defaults c)) (validate (apply_defaults c))

-- `setProvider`, after a discovery that succeeded.
unfoldable pub discovered : Text → Auth → Auth
discovered logout_url a = record a { ready = true; logout_url = logout_url }

-- The wait after a wait, in nanoseconds.
unfoldable pub next_wait : ℕ → ℕ
next_wait wait = if ltb (30 * second) (wait * 2) then 30 * second else wait * 2

started_with_started :
    (base : Text) (c : Config) (o : Option ConfigError) (a : Auth)
    → started_with base c o ≡ started a
    → (o ≡ none)
      × ((c.auth_url ≡ []) ⊎ (c.jwks_url ≢ []))
      × (record { cfg = c; base = base; ready = not (is_blank c.auth_url); logout_url = [] } ≡ a)
started_with_started base c (some e) a h = cc
started_with_started base c none a h =
    by_test (is_blank c.auth_url) (is_blank c.jwks_url) (blank_iff c.auth_url)
      (blank_iff c.jwks_url) h
  where
    whole : Auth
    whole = record { cfg = c; base = base; ready = not (is_blank c.auth_url); logout_url = [] }

    none_same : Option ConfigError
    none_same = none

    by_test :
        (b d : Bool)
        → (b ≡ true) ↔ (c.auth_url ≡ [])
        → (d ≡ true) ↔ (c.jwks_url ≡ [])
        → (if not b && d then jwks_url_required else started whole) ≡ started a
        → (none_same ≡ none) × ((c.auth_url ≡ []) ⊎ (c.jwks_url ≢ [])) × (whole ≡ a)
    by_test true d i j k = (refl, inl (i.0 refl), cc)
    by_test false true i j k = cc
    by_test false false i j k = (refl, inr (λ e. let bad : false ≡ true = j.1 e in cc), cc)

secret_length :
    (random : Text) (t : Text)
    → 32 ≤ length random
    → (t ≡ []) ⊎ (32 ≤ length t)
    → 32 ≤ length (if is_blank t then random else t)
secret_length random [] h k = h
secret_length random (c ∷ cs) h (inl e) = cc
secret_length random (c ∷ cs) h (inr k) = k

-- A server that `New` starts has settings that `Validate` accepts, with the keys' address if its endpoints are
-- given by hand, and then it is ready at once, otherwise not; its cookies are signed with at least 32 bytes,
-- if the generated secret is that long; and its base path is the one given.
pub new_auth-IsUsable :
    (random base : Text) (c : Config) (a : Auth)
    → 32 ≤ length random
    → new_auth random c base ≡ started a
    → IsUsable c
      × ((c.auth_url ≡ []) ⊎ (c.jwks_url ≢ []))
      × (a.ready ≡ not (is_blank c.auth_url))
      × (32 ≤ length a.cfg.cookie_secret)
      × (a.base ≡ base)
unfolding new_auth apply_defaults validated
new_auth-IsUsable random base c a long h =
    let (valid, keys, same) =
      started_with_started base (with_secret random (apply_defaults c)) (validated c) a h in
    let usable : IsUsable c = (validated-IsUsable c).0 valid in
    (
      usable,
      keys,
      sym (ap (λ (x : Auth). x.ready) same),
      subst (λ (x : Auth). 32 ≤ length x.cfg.cookie_secret) same
          (secret_length random c.cookie_secret long usable.3),
      sym (ap (λ (x : Auth). x.base) same),
    )
