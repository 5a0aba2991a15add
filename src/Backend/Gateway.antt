-- ===== src/Backend/Gateway.antt =====
-- internal/backend/gateway.go: which agents are connected, how they authenticate, and where the events
-- of their jobs go. Connections are entries of a heap, known by their place in it, since the map of agents
-- and the goroutine of a session share them; a connection keeps what was sent on its stream. Whether a send
-- works is an argument. Logging and metrics are left out. A sink is known by a number.
pub mod Authentication
pub mod Connections
pub mod Frames
pub mod Routing
use prober.Prelude.{
  ℕ, ◌+◌, ◌-◌, ◌/◌, Bool, true, false, not, ◌&&◌, ◌||◌, List, [], ◌∷◌, ◌++◌, map, Option, none,
  some, length, get_elem?, set, ◌==◌, if◌then◌else◌,
}
use prober.Prelude.Int.{ℤ, pos, negsuc}
use prober.Prelude.Maps.{Text, codes, Map, lookup, insert, delete, text_eq, ◌=?◌}
use prober.Backend.Config.{Config, AgentAuth, is_blank}
use prober.Backend.Registry.{Assignment, MonitorRegistry, assignment_for}
use prober.Backend.Run.{JobEvent}

pub data Message : Type 0 where
  welcome start_message cancel_message : Text → Message
  assign : Assignment → Message
  ping_message : ℕ → Message

pub record Conn : Type 0 where
  pub site : Text
  pub connected_at : ℕ
  pub assignment_version : ℕ
  pub ping_nonce : ℕ
  pub ping_sent_at : ℕ
  pub rtt_us : ℤ
  pub outbox : List Message

-- An event that reached a sink, or the monitoring sink with the site that it came from.
pub data Routed : Type 0 where
  to_sink : ℕ → JobEvent → Routed
  to_monitors : Text → JobEvent → Routed

pub record Gateway : Type 0 where
  pub tokens : Map Text Text
  pub shared_token : Text
  pub allowed_sites : Map Text Bool
  pub agents : Map Text ℕ
  pub conns : List Conn
  pub sinks : Map Text ℕ
  pub registry : Option MonitorRegistry
  pub has_monitor_sink : Bool
  pub routed : List Routed

abbrev pub fill_tokens : List AgentAuth → Map Text Text → Map Text Text
fill_tokens [] tokens = tokens
fill_tokens (a ∷ rest) tokens = fill_tokens rest (insert a.token a.site tokens)

abbrev pub fill_sites : List Text → Map Text Bool → Map Text Bool
fill_sites [] sites = sites
fill_sites (s ∷ rest) sites = fill_sites rest (insert s true sites)

unfoldable pub new_gateway : Config → Gateway
new_gateway c = record {
  tokens = fill_tokens c.agents [];
  shared_token = c.agent_token;
  allowed_sites = fill_sites c.allowed_sites [];
  agents = [];
  conns = [];
  sinks = [];
  registry = none;
  has_monitor_sink = false;
  routed = [];
}

unfoldable pub set_monitoring : MonitorRegistry → Gateway → Gateway
set_monitoring r g = record g { registry = some r; has_monitor_sink = true }

pub data Auth : Type 0 where
  as_site : Text → Auth
  missing_token unknown_token site_required : Auth
  not_allowed : Text → Auth

-- The loop over the pinned tokens, which keeps the site of the last that is equal.
abbrev pub pinned_site : Text → Map Text Text → Text → Text
pinned_site tok [] found = found
pinned_site tok ((known, s) ∷ rest) found = pinned_site tok rest (if tok =? known then s else found)

abbrev pub is_empty_map {ℓ} : {A : Type ℓ} → List A → Bool
is_empty_map [] = true
is_empty_map (x ∷ xs) = false

abbrev pub is_allowed : Text → Map Text Bool → Bool
is_allowed site sites =
    is_empty_map sites || (elim (lookup site sites) [ none ↦ false | some b ↦ true ])

-- The site of an agent that presents the shared token.
abbrev pub auth_declared : Text → Gateway → Auth
auth_declared declared g =
    if is_blank declared
    then site_required
    else if is_allowed declared g.allowed_sites
    then as_site declared
    else not_allowed declared

unfoldable pub auth_site : Text → Text → Gateway → Auth
auth_site tok declared g =
    let pinned = pinned_site tok g.tokens [] in
    if is_blank tok
    then missing_token
    else if not (is_blank pinned)
    then as_site pinned
    else if not (is_blank g.shared_token) && (tok =? g.shared_token)
    then auth_declared declared g
    else unknown_token

-- The new connection is the last of the heap, and takes the place of an older one of its site.
unfoldable pub add_agent : Conn → Gateway → Gateway
add_agent c g = record g {
  agents = insert c.site (length g.conns) g.agents;
  conns = g.conns ++ c ∷ [];
}

abbrev pub is_conn : ℕ → Option ℕ → Bool
is_conn ptr none = false
is_conn ptr (some p) = p == ptr

unfoldable pub remove_agent : Text → ℕ → Gateway → Gateway
remove_agent site ptr g = record g {
  agents = if is_conn ptr (lookup site g.agents) then delete site g.agents else g.agents;
}

abbrev pub update_found : ℕ → (Conn → Conn) → Option Conn → List Conn → List Conn
update_found ptr f none conns = conns
update_found ptr f (some c) conns = set conns ptr (f c)

unfoldable pub update_conn : ℕ → (Conn → Conn) → Gateway → Gateway
update_conn ptr f g = record g { conns = update_found ptr f (get_elem? g.conns ptr) g.conns }

-- A send on a connection's stream, which either fails or adds to what was sent.
unfoldable pub send : Bool → ℕ → Message → Gateway → Gateway
unfolding update_conn
send works ptr m g =
    if works then update_conn ptr (λ (c : Conn). record c { outbox = c.outbox ++ m ∷ [] }) g else g

abbrev pub next_nonce : Option Conn → ℕ
next_nonce none = 0
next_nonce (some c) = c.ping_nonce + 1

unfoldable pub ping : Bool → ℕ → ℕ → Gateway → Gateway
unfolding update_conn send
ping works now ptr g =
    let nonce = next_nonce (get_elem? g.conns ptr) in
    send works ptr (ping_message nonce)
      (update_conn ptr (λ (c : Conn). record c { ping_nonce = nonce; ping_sent_at = now }) g)

unfoldable pub on_pong : ℕ → ℕ → ℕ → Gateway → Gateway
unfolding update_conn
on_pong now nonce ptr g =
    update_conn ptr
      (λ (c : Conn). record c {
        rtt_us = if nonce == c.ping_nonce then pos ((now - c.ping_sent_at) / 1_000) else c.rtt_us;
      })
      g

abbrev pub has_prefix : Text → Text → Bool
has_prefix [] t = true
has_prefix (p ∷ ps) [] = false
has_prefix (p ∷ ps) (c ∷ cs) = p == c && has_prefix ps cs

abbrev pub is_monitor_job : Text → Bool
is_monitor_job id = has_prefix (codes "mon:") id

abbrev pub to_sink_of : Option ℕ → JobEvent → List Routed
to_sink_of none ev = []
to_sink_of (some sink) ev = to_sink sink ev ∷ []

unfoldable pub route : Text → JobEvent → Gateway → Gateway
route site ev g = record g {
  routed =
      g.routed
      ++ (if is_monitor_job ev.job_id
          then (if g.has_monitor_sink then to_monitors site ev ∷ [] else [])
          else to_sink_of (lookup ev.job_id g.sinks) ev);
}

abbrev pub push_one : Bool → ℕ → MonitorRegistry → Option Conn → Gateway → Gateway
push_one works ptr r none g = g
push_one works ptr r (some c) g =
    let as_new = assignment_for c.site r in
    if works
    then update_conn ptr
        (λ (d : Conn). record d {
          outbox = d.outbox ++ assign as_new ∷ [];
          assignment_version = as_new.version;
        })
        g
    else g

abbrev pub push_each : (ℕ → Bool) → MonitorRegistry → Map Text ℕ → Gateway → Gateway
push_each works r [] g = g
push_each works r ((site, ptr) ∷ rest) g =
    push_each works r rest (push_one (works ptr) ptr r (get_elem? g.conns ptr) g)

unfoldable pub push_assignments : (ℕ → Bool) → Gateway → Gateway
unfolding update_conn
push_assignments works g = elim g.registry [ none ↦ g | some r ↦ push_each works r g.agents g ]

abbrev pub is_there : Option ℕ → Bool
is_there none = false
is_there (some ptr) = true

unfoldable pub connected : Text → Gateway → Bool
connected site g = is_there (lookup site g.agents)

pub data Dispatched : Type 0 where
  not_connected : Dispatched
  dispatched send_failed : Gateway → Dispatched

abbrev pub dispatch_to : Bool → Text → ℕ → Option ℕ → Gateway → Dispatched
dispatch_to works job sink none g = not_connected
dispatch_to works job sink (some ptr) g =
    let s = record g { sinks = insert job sink g.sinks } in
    if works then dispatched (send true ptr (start_message job) s) else send_failed s

unfoldable pub start_job : Bool → Text → Text → ℕ → Gateway → Dispatched
unfolding send
start_job works site job sink g = dispatch_to works job sink (lookup site g.agents) g

abbrev pub send_cancel : Bool → Text → Option ℕ → Gateway → Gateway
send_cancel works job none g = g
send_cancel works job (some ptr) g = send works ptr (cancel_message job) g

unfoldable pub cancel_job : Bool → Text → Text → Gateway → Gateway
unfolding send
cancel_job works site job g = send_cancel works job (lookup site g.agents) g

unfoldable pub end_job : Text → Gateway → Gateway
end_job job g = record g { sinks = delete job g.sinks }
