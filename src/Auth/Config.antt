-- ===== src/Auth/Config.antt =====
-- internal/auth/config.go: the settings, their defaults and the check of them. Durations count nanoseconds.
-- A check returns Go's `error` as an option, `none` for nil.
use prober.Prelude.{
  ℕ, ◌*◌, Bool, true, ◌&&◌, not, List, [], ◌∷◌, Option, none, some, length, ltb, ◌==◌,
  if◌then◌else◌,
}
use prober.Prelude.Int.{ℤ, pos, negsuc, leb_ℤ}
use prober.Prelude.Maps.{Text, codes, text_eq, ◌=?◌}
use prober.Backend.Config.{is_blank}

pub record Config : Type 0 where
  pub issuer : Text
  pub client_id : Text
  pub client_secret : Text
  pub redirect_url : Text
  pub scopes : List Text
  pub auth_url : Text
  pub token_url : Text
  pub jwks_url : Text
  pub timeout : ℤ
  pub cookie_secret : Text
  pub cookie_name : Text
  pub secure_cookie : Option Bool
  pub session_ttl : ℤ
  pub logout : Text
  pub post_logout_redirect_url : Text
  pub allowed_groups : List Text
  pub groups_claim : Text

abbrev pub logout_local : Text
logout_local = codes "local"

abbrev pub logout_provider : Text
logout_provider = codes "provider"

abbrev pub second : ℕ
second = 1_000_000_000

abbrev pub or_default : Text → Text → Text
or_default t default_ = if is_blank t then default_ else t

abbrev pub scopes_or_default : List Text → List Text
scopes_or_default [] = codes "openid" ∷ codes "profile" ∷ codes "email" ∷ []
scopes_or_default (s ∷ scopes) = s ∷ scopes

abbrev pub ttl_or_default : ℤ → ℤ
ttl_or_default (pos n) = if n == 0 then pos (43200 * second) else pos n
ttl_or_default (negsuc n) = negsuc n

abbrev pub secure_or_default : Option Bool → Option Bool
secure_or_default none = some true
secure_or_default (some b) = some b

unfoldable pub apply_defaults : Config → Config
apply_defaults c = record c {
  scopes = scopes_or_default c.scopes;
  cookie_name = or_default c.cookie_name (codes "prober_session");
  session_ttl = ttl_or_default c.session_ttl;
  groups_claim = or_default c.groups_claim (codes "groups");
  logout = or_default c.logout logout_local;
  secure_cookie = secure_or_default c.secure_cookie;
  timeout = if leb_ℤ c.timeout (pos 0) then pos (10 * second) else c.timeout;
}

pub data ConfigError : Type 0 where
  issuer_required client_id_required redirect_url_required : ConfigError
  short_secret : ℕ → ConfigError
  unknown_logout : Text → ConfigError

unfoldable pub validate : Config → Option ConfigError
validate c =
    if is_blank c.issuer && is_blank c.auth_url
    then some issuer_required
    else if is_blank c.client_id
    then some client_id_required
    else if is_blank c.redirect_url
    then some redirect_url_required
    else if not (is_blank c.cookie_secret) && ltb (length c.cookie_secret) 32
    then some (short_secret (length c.cookie_secret))
    else if not (c.logout =? logout_local) && not (c.logout =? logout_provider)
    then some (unknown_logout c.logout)
    else none

-- `Config.Validate`.
unfoldable pub validated : Config → Option ConfigError
unfolding apply_defaults validate
validated c = validate (apply_defaults c)
