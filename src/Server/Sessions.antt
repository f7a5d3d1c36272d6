-- ===== src/Server/Sessions.antt =====
-- apps/server/src/realtime/session-registry.ts. A peer, a socket in the code, is the number by which
-- it is told apart; what was sent to the peers and which were closed is noted, the last first. The
-- id and the time of a message are left out.
use smart_form.Base.{
  ℕ, suc, String, Bool, false, not, ◌&&◌, Option, none, some, List, [], ◌∷◌, ◌++◌, ◌==◌, nat_eq,
  leb, truthy, opt_eq, text_concat, if◌then◌else◌,
}
use smart_form.Base.Exec.{Exec, pure, throw, gets, put_state, ◌>>=◌, ◌>>◌, require}
use smart_form.Contracts.Protocol.{AgentCommand, AgentReport, envelope_of}
use smart_form.Server.{AppError, not_found_error, conflict_error}

pub record AuthPrincipal : Type 0 where
  pub subject : String
  pub tenant_id : String
  pub device_id : Option String
  pub scopes : List String

pub record AgentSession : Type 0 where
  pub peer : ℕ
  pub principal : AuthPrincipal
  pub device_id : String

-- `serial` tells one session object from another.
pub record WebSession : Type 0 where
  pub serial : ℕ
  pub peer : ℕ
  pub principal : AuthPrincipal

pub data Message : Type 0 where
  task_command : AgentCommand → Message
  task_report : AgentReport → Message
  -- The tenant that the frame is relayed for, which does not travel, and its bytes.
  frame : String → List ℕ → Message
  server_hello : String → Option String → Message
  report_ack : String → Message

pub record Delivery : Type 0 where
  pub peer : ℕ
  pub message : Message

-- The function that a registration returns.
pub data Unregister : Type 0 where
  agent_entry : String → ℕ → Unregister
  web_entry : ℕ → Unregister

pub data Role : Type 0 where
  agent web : Role

-- `SessionState` of realtime-hub.ts.
pub record SessionState : Type 0 where
  pub principal : AuthPrincipal
  pub role : Role
  pub device_id : Option String
  pub unregister : Unregister

pub record Net : Type 0 where
  pub agents : List (String × AgentSession)
  pub web_sessions : List WebSession
  pub next_serial : ℕ
  pub sessions : List (ℕ × SessionState)
  -- The sockets whose handler has set `authenticated`.
  pub authenticated : List ℕ
  pub sent : List Delivery
  pub closed : List (ℕ × ℕ)
  -- What the listeners of the hub were called with.
  pub reported : List AgentReport

-- The character that keeps the parts of a key apart.
abbrev separator : String
separator = "\0"

abbrev pub device_key : String → String → String
device_key tenant_id device_id = text_concat tenant_id (text_concat separator device_id)

unfoldable pub find_agent : String → List (String × AgentSession) → Option AgentSession
find_agent key [] = none
find_agent key ((k, s) ∷ rest) = if k == key then some s else find_agent key rest

unfoldable pub set_agent :
    String → AgentSession → List (String × AgentSession) → List (String × AgentSession)
set_agent key s [] = (key, s) ∷ []
set_agent key s ((k, o) ∷ rest) = if k == key then (k, s) ∷ rest else (k, o) ∷ set_agent key s rest

-- The entry of the key goes if its peer is this one.
unfoldable pub delete_agent :
    String → ℕ → List (String × AgentSession) → List (String × AgentSession)
delete_agent key peer [] = []
delete_agent key peer ((k, s) ∷ rest) =
    if k == key
    then (if nat_eq s.peer peer then rest else (k, s) ∷ rest)
    else (k, s) ∷ delete_agent key peer rest

unfoldable pub delete_web : ℕ → List WebSession → List WebSession
delete_web serial [] = []
delete_web serial (s ∷ rest) = if nat_eq s.serial serial then rest else s ∷ delete_web serial rest

abbrev pub S : Type 0 → Type 0
S A = Exec AppError Net A

abbrev pub send_to : ℕ → Message → S Unit
send_to peer message =
    put_state (λ n. record n { sent = record { peer = peer; message = message } ∷ n.sent })

abbrev pub close_peer : ℕ → ℕ → S Unit
close_peer peer code = put_state (λ n. record n { closed = (peer, code) ∷ n.closed })

abbrev pub replace_peer : ℕ → Option AgentSession → S Unit
replace_peer peer none = pure tt
replace_peer peer (some old) = if nat_eq old.peer peer then pure tt else close_peer old.peer 4002

-- A token for one device cannot register another.
abbrev pub other_device : Option String → String → Bool
other_device own device_id = truthy own && not (opt_eq own (some device_id))

unfoldable pub register_agent : ℕ → AuthPrincipal → String → S Unregister
register_agent peer principal device_id = do
  require (not (other_device principal.device_id device_id))
      (conflict_error "Device token cannot register another device")
  let key = device_key principal.tenant_id device_id
  existing ← gets (λ n. find_agent key n.agents)
  replace_peer peer existing
  put_state (λ n. record n {
    agents =
        set_agent key (record { peer = peer; principal = principal; device_id = device_id })
          n.agents;
  })
  pure (agent_entry key peer)

unfoldable pub register_web : ℕ → AuthPrincipal → S Unregister
register_web peer principal = do
  serial ← gets (λ n. n.next_serial)
  put_state (λ n. record n {
    web_sessions =
        n.web_sessions ++ record { serial = serial; peer = peer; principal = principal } ∷ [];
    next_serial = suc serial;
  })
  pure (web_entry serial)

unfoldable pub unregister : Unregister → Net → Net
unfolding delete_agent delete_web
unregister (agent_entry key peer) n = record n { agents = delete_agent key peer n.agents }
unregister (web_entry serial) n = record n { web_sessions = delete_web serial n.web_sessions }

abbrev pub has_expired : Option ℕ → ℕ → Bool
has_expired none now = false
has_expired (some t) now = leb t now

-- `Date.parse`, the clock, and which peers are open when the call is made.
pub record Moment : Type 0 where
  pub parse_date : String → Option ℕ
  pub now : ℕ
  pub is_open : ℕ → Bool

abbrev pub online : Moment → String → Option AgentSession → S ℕ
online t device_id none = throw (not_found_error "online device" device_id)
online t device_id (some s) =
    if t.is_open s.peer then pure s.peer else throw (not_found_error "online device" device_id)

unfoldable pub dispatch : Moment → AgentCommand → S Unit
dispatch t command = do
  let e = envelope_of command
  session ← gets (λ n. find_agent (device_key e.tenant_id e.device_id) n.agents)
  peer ← online t e.device_id session
  require (not (has_expired (t.parse_date e.expires_at) t.now))
      (conflict_error "Expired task commands cannot be dispatched")
  send_to peer (task_command command)

-- The loop over the web sessions of a tenant.
unfoldable pub send_each : Moment → String → Message → List WebSession → S Unit
send_each t tenant_id message [] = pure tt
send_each t tenant_id message (s ∷ rest) = do
  if s.principal.tenant_id == tenant_id && t.is_open s.peer then send_to s.peer message else pure tt
  send_each t tenant_id message rest

unfoldable pub publish_report : Moment → AgentReport → S Unit
unfolding send_each
publish_report t report = do
  sessions ← gets (λ n. n.web_sessions)
  send_each t report.tenant_id (task_report report) sessions

unfoldable pub relay_frame : Moment → String → List ℕ → S Unit
unfolding send_each
relay_frame t tenant_id bytes = do
  sessions ← gets (λ n. n.web_sessions)
  send_each t tenant_id (frame tenant_id bytes) sessions
