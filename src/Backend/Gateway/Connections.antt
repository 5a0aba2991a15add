-- ===== src/Backend/Gateway/Connections.antt =====
-- Connections that replace one another, in internal/backend/gateway.go.
use prober.Prelude.{
  ℕ, ◌≡◌, ◌<◌, refl, ap, ◌∙◌, Bool, true, false, none, length, arith, ◌==◌, if◌then◌else◌,
}
use prober.Prelude.Maps.{
  lookup, insert, delete, text_eq, =?_refl, lookup-insert_self, lookup-delete,
}
use prober.Backend.Gateway.{Gateway, Conn, add_agent, remove_agent, is_conn, is_there, connected}

-- A site whose agent has connected anew is connected, stays so when the session of an older connection
-- ends, and is not once the new connection's session has ended.
pub remove_agent-add_agent :
    (c : Conn) (old : ℕ) (g : Gateway)
    → old < length g.conns
    → (connected c.site (add_agent c g) ≡ true)
      × (connected c.site (remove_agent c.site old (add_agent c g)) ≡ true)
      × (connected c.site (remove_agent c.site (length g.conns) (add_agent c g)) ≡ false)
unfolding add_agent remove_agent connected
remove_agent-add_agent c old g h =
    let after = insert c.site (length g.conns) g.agents in
    let found = lookup-insert_self c.site (length g.conns) g.agents in
    let other : (length g.conns == old) ≡ false = ground (arith, h) in
    let same : (length g.conns == length g.conns) ≡ true = ground arith in
    let gone : lookup c.site (delete c.site (insert c.site (length g.conns) g.agents)) ≡ none =
      lookup-delete c.site c.site (insert c.site (length g.conns) g.agents)
      ∙ rw (=?_refl c.site) refl in
    (
      ap is_there found,
      ap is_there (
          ap (λ (b : Bool). lookup c.site (if b then delete c.site after else after))
            (ap (is_conn old) found ∙ other)
          ∙ found),
      ap is_there (
          ap (λ (b : Bool). lookup c.site (if b then delete c.site after else after))
            (ap (is_conn (length g.conns)) found ∙ same)
          ∙ gone),
    )
