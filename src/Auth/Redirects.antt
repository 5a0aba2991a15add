-- ===== src/Auth/Redirects.antt =====
-- Where internal/auth/auth.go sends a user who has signed in.
use prober.Prelude.{◌≡◌, ◌≢◌, true, [], ◌∷◌, arith}
use prober.Prelude.Maps.{Text, codes, text_eq}
use prober.Backend.Gateway.{has_prefix}
use prober.Auth.Login.{slash}

-- A slash that no second slash follows. A backslash may follow it.
abbrev pub HasOneSlash : Text → Type 0
HasOneSlash [] = ⊥
HasOneSlash (c ∷ []) = c ≡ slash
HasOneSlash (c ∷ d ∷ cs) = (c ≡ slash) × (d ≢ slash)

-- Starts with a slash.
abbrev pub IsRooted : Text → Type 0
IsRooted [] = ⊥
IsRooted (c ∷ cs) = c ≡ slash

has_prefix-IsRooted : (p : Text) → has_prefix (codes "/") p ≡ true → IsRooted p
has_prefix-IsRooted [] h = cc
has_prefix-IsRooted (c ∷ cs) h = ground (arith, h)

-- The base path of a deployment: none, or one that starts with a slash and a character that is not a slash.
abbrev pub IsMount : Text → Type 0
IsMount [] = Unit
IsMount (c ∷ []) = ⊥
IsMount (c ∷ d ∷ cs) = (c ≡ slash) × (d ≢ slash)
