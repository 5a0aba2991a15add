-- ===== src/Backend/Config/Agents.antt =====
-- Which lists of agents internal/backend/config.go accepts.
use prober.Prelude.{
  ℕ, ◌+◌, ◌≡◌, ◌≢◌, ◌↔◌, refl, Bool, true, false, ◌||◌, List, [], ◌∷◌, none, All, arith,
}
use prober.Prelude.Maps.{Text, Map, insert, text_eq}
use prober.Backend.Config.{AgentAuth, is_blank, is_seen, check_agent, agents_from}
use prober.Backend.Config.Checks.{
  IsDistinct, is_blank_iff, guard-none, first_error-none, or-false, IsUnseen, IsUnseen-insert,
}

abbrev pub IsAgent : AgentAuth → Type 0
IsAgent a = (a.site ≢ []) × (a.token ≢ [])

check_agent-none :
    (i : ℕ) (seen tokens : Map Text Bool) (a : AgentAuth)
    → (check_agent i seen tokens a ≡ none)
      ↔ (IsAgent a × ((is_seen a.site seen ≡ false) × (is_seen a.token tokens ≡ false)))
unfolding check_agent
check_agent-none i seen tokens a = (
  λ h.
      let x = (guard-none (is_blank a.site || is_blank a.token) _ _).0 h in
      let y = (guard-none (is_seen a.site seen) _ _).0 x.1 in
      let z = (guard-none (is_seen a.token tokens) _ _).0 y.1 in
      let blank = (or-false (is_blank a.site) (is_blank a.token)).0 x.0 in
      (
        (
          ground (arith, is_blank_iff a.site, blank.0),
          ground (arith, is_blank_iff a.token, blank.1),
        ),
        (y.0, z.0),
      ),
  λ (v, (s, t)). (guard-none (is_blank a.site || is_blank a.token) _ _).1 (
    (or-false (is_blank a.site) (is_blank a.token)).1
        (ground (arith, is_blank_iff a.site, v.0), ground (arith, is_blank_iff a.token, v.1)),
    (guard-none (is_seen a.site seen) _ _).1
        (s, (guard-none (is_seen a.token tokens) _ _).1 (t, refl)),
  ),
)

abbrev pub AreAgents : List AgentAuth → Type 0
AreAgents as_listed =
    All IsAgent as_listed
    × (IsDistinct (λ (a : AgentAuth). a.site) as_listed
        × IsDistinct (λ (a : AgentAuth). a.token) as_listed)

pub agents_from-none :
    (i : ℕ) (seen tokens : Map Text Bool) (xs : List AgentAuth)
    → (agents_from i seen tokens xs ≡ none) ↔ (
        AreAgents xs
        × (IsUnseen (λ (a : AgentAuth). a.site) seen xs
            × IsUnseen (λ (a : AgentAuth). a.token) tokens xs))
unfolding agents_from
agents_from-none i seen tokens [] = (λ _. ((tt, (tt, tt)), (tt, tt)), λ _. refl)
agents_from-none i seen tokens (a ∷ rest) = (
  λ h.
      let both = (first_error-none _ _).0 h in
      let head = (check_agent-none i seen tokens a).0 both.0 in
      let tail =
        (agents_from-none (i + 1) (insert a.site true seen) (insert a.token true tokens) rest).0
          both.1 in
      let s = (IsUnseen-insert (λ (x : AgentAuth). x.site) a.site seen rest).0 tail.1.0 in
      let t = (IsUnseen-insert (λ (x : AgentAuth). x.token) a.token tokens rest).0 tail.1.1 in
      (
        ((head.0, tail.0.0), ((s.0, tail.0.1.0), (t.0, tail.0.1.1))),
        ((head.1.0, s.1), (head.1.1, t.1)),
      ),
  λ ((agents, (sites, tokens_differ)), (s, t)). (first_error-none _ _).1 (
    (check_agent-none i seen tokens a).1 (agents.0, (s.0, t.0)),
    (agents_from-none (i + 1) (insert a.site true seen) (insert a.token true tokens) rest).1 (
      (agents.1, (sites.1, tokens_differ.1)),
      (
        (IsUnseen-insert (λ (x : AgentAuth). x.site) a.site seen rest).1 (sites.0, s.1),
        (IsUnseen-insert (λ (x : AgentAuth). x.token) a.token tokens rest).1 (tokens_differ.0, t.1),
      ),
    ),
  ),
)
