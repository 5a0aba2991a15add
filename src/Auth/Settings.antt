-- ===== src/Auth/Settings.antt =====
-- Which settings internal/auth/config.go accepts, and what a server then runs with.
use prober.Prelude.{
  ◌≡◌, ◌≢◌, ◌≤◌, refl, ◌⊎◌, ◌↔◌, true, false, ◌&&◌, not, [], ◌∷◌, none, length, arith,
}
use prober.Prelude.Maps.{Text, text_eq, ◌=?◌}
use prober.Backend.Config.{is_blank}
use prober.Auth.Config.{
  Config, logout_local, logout_provider, or_default, apply_defaults, validate, validated,
}

pub blank_iff : (t : Text) → (is_blank t ≡ true) ↔ (t ≡ [])
blank_iff [] = (λ h. refl, λ h. refl)
blank_iff (c ∷ cs) = (λ h. cc, λ h. cc)

-- What `Validate` requires.
abbrev pub IsUsable : Config → Type 0
IsUsable c =
    ((c.issuer ≢ []) ⊎ (c.auth_url ≢ []))
    × (c.client_id ≢ [])
    × (c.redirect_url ≢ [])
    × ((c.cookie_secret ≡ []) ⊎ (32 ≤ length c.cookie_secret))
    × ((c.logout ≡ []) ⊎ ((c.logout ≡ logout_local) ⊎ (c.logout ≡ logout_provider)))

logout_iff :
    (t : Text)
    → (not (or_default t logout_local =? logout_local)
          && not (or_default t logout_local =? logout_provider)
        ≡ false)
      ↔ ((t ≡ []) ⊎ ((t ≡ logout_local) ⊎ (t ≡ logout_provider)))
logout_iff t = ground (
  arith,
  blank_iff t,
  text_eq.beq_iff (or_default t logout_local) logout_local,
  text_eq.beq_iff (or_default t logout_local) logout_provider,
)

pub validated-IsUsable : (c : Config) → (validated c ≡ none) ↔ IsUsable c
unfolding validated validate apply_defaults
validated-IsUsable c = ground (
  arith,
  blank_iff c.issuer,
  blank_iff c.auth_url,
  blank_iff c.client_id,
  blank_iff c.redirect_url,
  blank_iff c.cookie_secret,
  logout_iff c.logout,
)
