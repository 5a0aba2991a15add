-- ===== src/Backend/Gateway/Authentication.antt =====
-- Which site a token of the configuration leads to, in internal/backend/gateway.go.
use prober.Prelude.{
  ◌≡◌, ◌≢◌, refl, sym, ap, subst, ◌∙◌, Bool, false, List, [], ◌∷◌, ◌++◌, none, All, if◌then◌else◌,
  Bool-cases, inl, inr,
}
use prober.Prelude.Maps.{Text, Map, insert, text_eq, ◌=?◌, =?_refl}
use prober.Backend.Config.{Config, AgentAuth, is_blank, validate}
use prober.Backend.Config.Checks.{IsDistinct, =?-false}
use prober.Backend.Config.Agents.{IsAgent, AreAgents}
use prober.Backend.Config.Validity.{validate-IsValid}
use prober.Backend.Gateway.{new_gateway, fill_tokens, pinned_site, as_site, auth_site}

pinned_site-insert_other :
    (tok k v : Text) (m : Map Text Text) (found : Text)
    → tok ≢ k
    → pinned_site tok (insert k v m) found ≡ pinned_site tok m found
unfolding insert
pinned_site-insert_other tok k v [] found h = rw ((=?-false tok k).1 h) refl
pinned_site-insert_other tok k v ((j, w) ∷ m) found h = elim (Bool-cases (j =? k)) [
  | inl t ↦
      let differs : (tok =? j) ≡ false =
        (=?-false tok j).1 (λ e. h (e ∙ (text_eq.beq_iff j k).0 t)) in
      rw t (
        ap (pinned_site tok m) (
          ap (λ (b : Bool). if b then v else found) ((=?-false tok k).1 h)
          ∙ sym (ap (λ (b : Bool). if b then w else found) differs)))
  | inr f ↦ rw f (pinned_site-insert_other tok k v m (if tok =? j then w else found) h)
]

-- The token has no entry.
abbrev IsUnpinned : Text → Map Text Text → Type 0
IsUnpinned tok = All (λ (e : Text × Text). e.0 ≢ tok)

pinned_site-insert_self :
    (tok v : Text) (m : Map Text Text) (found : Text)
    → IsUnpinned tok m
    → pinned_site tok (insert tok v m) found ≡ v
unfolding insert
pinned_site-insert_self tok v [] found h = rw (=?_refl tok) refl
pinned_site-insert_self tok v ((j, w) ∷ m) found h =
    let differs : (j =? tok) ≡ false = (=?-false j tok).1 h.0 in
    rw differs (pinned_site-insert_self tok v m (if tok =? j then w else found) h.1)

IsUnpinned-insert :
    (tok k v : Text) (m : Map Text Text)
    → k ≢ tok
    → IsUnpinned tok m
    → IsUnpinned tok (insert k v m)
unfolding insert
IsUnpinned-insert tok k v [] n h = (n, tt)
IsUnpinned-insert tok k v ((j, w) ∷ m) n h = elim (Bool-cases (j =? k)) [
  | inl t ↦ rw t (n, h.1)
  | inr f ↦ rw f (h.0, IsUnpinned-insert tok k v m n h.1)
]

abbrev token_of : AgentAuth → Text
token_of a = a.token

fill_tokens-IsUnpinned :
    (tok : Text) (xs : List AgentAuth) (acc : Map Text Text)
    → All (λ x. token_of x ≢ tok) xs
    → IsUnpinned tok acc
    → IsUnpinned tok (fill_tokens xs acc)
fill_tokens-IsUnpinned tok [] acc n h = h
fill_tokens-IsUnpinned tok (x ∷ xs) acc n h =
    fill_tokens-IsUnpinned tok xs (insert x.token x.site acc) n.1
      (IsUnpinned-insert tok x.token x.site acc n.0 h)

pinned_site-fill_tokens :
    (tok : Text) (xs : List AgentAuth) (acc : Map Text Text) (found : Text)
    → All (λ x. tok ≢ token_of x) xs
    → pinned_site tok (fill_tokens xs acc) found ≡ pinned_site tok acc found
pinned_site-fill_tokens tok [] acc found n = refl
pinned_site-fill_tokens tok (x ∷ xs) acc found n =
    pinned_site-fill_tokens tok xs (insert x.token x.site acc) found n.1
    ∙ pinned_site-insert_other tok x.token x.site acc found n.0

distinct_around :
    (before after : List AgentAuth) (a : AgentAuth)
    → IsDistinct token_of (before ++ a ∷ after)
    → All (λ x. token_of x ≢ a.token) before × All (λ x. a.token ≢ token_of x) after
distinct_around [] after a h = (tt, h.0)
distinct_around (x ∷ xs) after a h =
    let rest = distinct_around xs after a h.1 in ((at_middle xs h.0, rest.0), rest.1)
  where
    at_middle :
        (ys : List AgentAuth)
        → All (λ y. token_of x ≢ token_of y) (ys ++ a ∷ after)
        → token_of x ≢ a.token
    at_middle [] k = k.0
    at_middle (y ∷ ys) k = at_middle ys k.1

fill_tokens-append :
    (xs ys : List AgentAuth) (acc : Map Text Text)
    → fill_tokens (xs ++ ys) acc ≡ fill_tokens ys (fill_tokens xs acc)
fill_tokens-append [] ys acc = refl
fill_tokens-append (x ∷ xs) ys acc = fill_tokens-append xs ys (insert x.token x.site acc)

pinned_site_lem :
    (before after : List AgentAuth) (a : AgentAuth)
    → IsDistinct token_of (before ++ a ∷ after)
    → pinned_site a.token (fill_tokens (before ++ a ∷ after) []) [] ≡ a.site
pinned_site_lem before after a h =
    let apart = distinct_around before after a h in
    ap (λ (m : Map Text Text). pinned_site a.token m []) (fill_tokens-append before (a ∷ after) [])
    ∙ (pinned_site-fill_tokens a.token after (insert a.token a.site (fill_tokens before [])) []
          apart.1
        ∙ pinned_site-insert_self a.token a.site (fill_tokens before []) []
            (fill_tokens-IsUnpinned a.token before [] apart.0 tt))

not_blank : (t : Text) → t ≢ [] → is_blank t ≡ false
not_blank [] h = absurd (h refl)
not_blank (c ∷ cs) h = refl

IsAgent-at :
    (before after : List AgentAuth) (a : AgentAuth) → All IsAgent (before ++ a ∷ after) → IsAgent a
IsAgent-at [] after a h = h.0
IsAgent-at (x ∷ xs) after a h = IsAgent-at xs after a h.1

-- With a configuration that passes `Validate`, the token of each configured agent leads to that
-- agent's site, whatever site the agent declares.
pub auth_site-new_gateway :
    (c : Config) (declared : Text) (before after : List AgentAuth) (a : AgentAuth)
    → validate c ≡ none
    → c.agents ≡ before ++ a ∷ after
    → auth_site a.token declared (new_gateway c) ≡ as_site a.site
unfolding auth_site new_gateway
auth_site-new_gateway c declared before after a h e =
    let agents : AreAgents (before ++ a ∷ after) =
      subst AreAgents e ((validate-IsValid c).0 h).agents_valid in
    let own = IsAgent-at before after a agents.0 in
    let pinned : pinned_site a.token (fill_tokens c.agents []) [] ≡ a.site =
      ap (λ (xs : List AgentAuth). pinned_site a.token (fill_tokens xs []) []) e
      ∙ pinned_site_lem before after a agents.1.1 in
    rw (pinned, not_blank a.token own.1, not_blank a.site own.0) refl
