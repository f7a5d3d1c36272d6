-- ===== src/Realtime.antt =====
-- apps/desktop/src/agent/realtime-client.ts. A socket is the number by which it is told apart. What
-- is sent and what is emitted is noted in order; the id and the time of a message are left out. Code
-- after an `await` is an event of its own, so that others may come between.
pub mod Handlers
pub mod Quiet
pub mod Handled
pub mod Delivery
pub mod Commands
pub mod Backoff
mod Tests
pub mod Flush
pub mod Left
pub mod Drain
use smart_form.Base.{
  ℕ, suc, ◌+◌, ◌*◌, ◌^◌, String, Bool, true, false, not, ◌&&◌, ◌||◌, Option, none, some, List, [],
  ◌∷◌, ◌++◌, ◌==◌, nat_eq, any, min, truthy, if◌then◌else◌,
}
use smart_form.Base.Exec.{Exec, pure, throw, gets, put_state, ◌>>=◌, ◌>>◌, require, try_catch}
use smart_form.Contracts.Json.{Payload}
use smart_form.Contracts.Artifact.{Failure, error}
use smart_form.Contracts.Protocol.{AgentCommand, AgentReport, envelope_of}
use smart_form.Database.{Tables, OutboxRecord, enqueue_report, list_outbox, acknowledge_report}

pub record AgentRealtimeClientConfig : Type 0 where
  pub server_url : String
  pub access_token : String
  pub tenant_id : String
  pub device_id : String
  pub protocol_version : String
  pub reconnect : Option Bool

-- What travels to the server; a report comes with its correlation id.
pub data Message : Type 0 where
  client_hello : String → String → Message
  agent_report : AgentReport → Option String → Message
  client_heartbeat : String → String → Message
  frame : List ℕ → Message

-- A message of the server, as far as it could be parsed.
pub data Incoming : Type 0 where
  server_hello : Incoming
  task_command : Option AgentCommand → Incoming
  report_ack : Option String → Incoming
  other malformed : Incoming

pub data Notice : Type 0 where
  command : AgentCommand → Notice
  connected disconnected : Notice
  client_error : Failure → Notice

-- `ready` holds the sockets in the state OPEN, and `settled` the outcomes of the promises that
-- `connect` returned. A timer is there from its start until it is cleared.
pub record Client : Type 0 where
  pub socket : Option ℕ
  pub authenticated : Bool
  pub stopped : Bool
  pub reconnect_attempt : ℕ
  pub reconnect_timer : Option ℕ
  pub heartbeat_timer : Bool
  pub next_socket : ℕ
  pub ready : List ℕ
  pub settled : List (ℕ × Bool)
  pub sent : List (ℕ × Message)
  pub notices : List Notice
  pub database : Tables

-- The protocol and the host name of a URL, or `none` if it does not parse.
abbrev pub ParseUrl : Type 0
ParseUrl = String → Option (String × String)

abbrev is_loopback : String → Bool
is_loopback hostname = hostname == "127.0.0.1" || hostname == "localhost" || hostname == "::1"

abbrev allowed_url : Option (String × String) → Bool
allowed_url none = false
allowed_url (some (protocol, hostname)) =
    protocol == "wss:" || (protocol == "ws:" && is_loopback hostname)

-- The constructor.
unfoldable pub create : ParseUrl → AgentRealtimeClientConfig → Tables → Option Client
create parse c database =
    if allowed_url (parse c.server_url)
    then some (record {
      socket = none;
      authenticated = false;
      stopped = true;
      reconnect_attempt = 0;
      reconnect_timer = none;
      heartbeat_timer = false;
      next_socket = 0;
      ready = [];
      settled = [];
      sent = [];
      notices = [];
      database = database;
    })
    else none

abbrev pub C : Type 0 → Type 0
C = Exec Failure Client

abbrev pub is_open : Option ℕ → List ℕ → Bool
is_open none ready = false
is_open (some i) ready = any (nat_eq i) ready

-- `isAvailable`.
abbrev pub is_available : Client → Bool
is_available s = s.authenticated && is_open s.socket s.ready

abbrev pub without : ℕ → List ℕ → List ℕ
without i [] = []
without i (j ∷ js) = let rest = without i js in if nat_eq i j then rest else j ∷ rest

abbrev pub emit : Notice → C Unit
emit n = put_state (λ s. record s { notices = s.notices ++ n ∷ [] })

-- A socket that is closed leaves OPEN at once.
abbrev pub close_socket : ℕ → C Unit
close_socket i = put_state (λ s. record s { ready = without i s.ready })

abbrev pub is_settled : ℕ → List (ℕ × Bool) → Bool
is_settled i outcomes = any (λ o. nat_eq i o.0) outcomes

-- A promise that is settled stays as it is.
abbrev pub settle : ℕ → Bool → C Unit
settle i outcome = put_state (λ s. record s {
  settled = if is_settled i s.settled then s.settled else s.settled ++ (i, outcome) ∷ [];
})

abbrev pub send_on : Option ℕ → Message → C Unit
send_on none m = throw (error "Realtime socket is not open")
send_on (some i) m = do
  open_now ← gets (λ s. any (nat_eq i) s.ready)
  require open_now (error "Realtime socket is not open")
  put_state (λ s. record s { sent = s.sent ++ (i, m) ∷ [] })

unfoldable pub send_json : Message → C Unit
send_json m = do socket ← gets (λ s. s.socket); send_on socket m

-- `command_id ?? task_id`.
abbrev pub correlation : AgentReport → Option String
correlation r = elim r.command_id [ none ↦ r.task_id | some id ↦ some id ]

abbrev pub report_message : AgentReport → Message
report_message r = agent_report r (correlation r)

-- The JSON of a report and its parse against the schema.
pub record Reports : Type 0 where
  pub print : AgentReport → Payload
  pub parse : Payload → Option AgentReport

abbrev pub required : Option AgentReport → C AgentReport
required none = throw (error "Invalid report")
required (some r) = pure r

abbrev pub row_of : Reports → AgentReport → OutboxRecord
row_of reports r = record {
  report_id = r.report_id;
  task_id = r.task_id;
  sequence = r.sequence;
  payload = reports.print r;
  created_at = r.timestamp;
}

unfoldable pub connect : C Unit
connect = put_state (λ s. record s { socket = some s.next_socket; next_socket = suc s.next_socket })

unfoldable pub start : C Unit
unfolding connect
start = do
  stopped ← gets (λ s. s.stopped)
  if stopped then (do put_state (λ s. record s { stopped = false }); connect) else pure tt

abbrev pub close_current : Option ℕ → C Unit
close_current none = pure tt
close_current (some i) = close_socket i

unfoldable pub stop : C Unit
stop = do
  put_state (λ s. record s {
    stopped = true;
    authenticated = false;
    reconnect_timer = none;
    heartbeat_timer = false;
  })
  socket ← gets (λ s. s.socket)
  close_current socket
  put_state (λ s. record s { socket = none })
