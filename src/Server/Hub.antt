-- ===== src/Server/Hub.antt =====
-- apps/server/src/realtime/realtime-hub.ts. A message of a socket that has not been authenticated
-- waits for the verification of its token: `welcome` is what the handler does after that, and
-- `on_message` serves the messages of a socket that has been.
use smart_form.Base.{
  ℕ, String, Bool, true, false, not, ◌&&◌, Option, none, some, List, [], ◌∷◌, ◌==◌, nat_eq, any,
  truthy, opt_eq, if◌then◌else◌,
}
use smart_form.Base.Exec.{pure, throw, gets, put_state, ◌>>=◌, ◌>>◌, require, try_catch}
use smart_form.Contracts.Protocol.{AgentCommand, AgentReport}
use smart_form.Server.{AppError, plain_error}
use smart_form.Server.Sessions.{
  AuthPrincipal, SessionState, Role, agent, web, Unregister, Net, S, Moment, send_to, close_peer,
  other_device, register_agent, register_web, unregister, publish_report, relay_frame, dispatch,
  server_hello, report_ack,
}

pub record RealtimeHello : Type 0 where
  pub role : Role
  pub device_id : Option String

-- A message after decoding; `none` where its report does not fit the schema.
pub data Incoming : Type 0 where
  binary : List ℕ → Incoming
  heartbeat : Incoming
  agent_report : Option AgentReport → Incoming
  other_message malformed : Incoming

unfoldable pub find_session : ℕ → List (ℕ × SessionState) → Option SessionState
find_session socket [] = none
find_session socket ((k, s) ∷ rest) = if nat_eq k socket then some s else find_session socket rest

unfoldable pub set_session : ℕ → SessionState → List (ℕ × SessionState) → List (ℕ × SessionState)
set_session socket s [] = (socket, s) ∷ []
set_session socket s ((k, o) ∷ rest) =
    if nat_eq k socket then (k, s) ∷ rest else (k, o) ∷ set_session socket s rest

unfoldable pub delete_session : ℕ → List (ℕ × SessionState) → List (ℕ × SessionState)
delete_session socket [] = []
delete_session socket ((k, s) ∷ rest) =
    if nat_eq k socket then rest else (k, s) ∷ delete_session socket rest

abbrev pub agent_device : AuthPrincipal → Option String → S String
agent_device principal none =
    throw (plain_error "Agent sessions require a device ID and tasks:execute scope")
agent_device principal (some d) = do
  require (truthy (some d) && any (λ s. s == "tasks:execute") principal.scopes)
      (plain_error "Agent sessions require a device ID and tasks:execute scope")
  require (not (other_device principal.device_id d))
      (plain_error "Agent device ID does not match its access token")
  pure d

unfoldable pub register_role : ℕ → AuthPrincipal → Option String → Role → S Unregister
register_role socket principal device_id agent = do
  d ← agent_device principal device_id
  register_agent socket principal d
register_role socket principal device_id web = register_web socket principal

-- `RealtimeHub.register`.
unfoldable pub register : ℕ → AuthPrincipal → Role → Option String → S Unit
unfolding register_role set_session
register socket principal role device_id = do
  u ← register_role socket principal device_id role
  put_state (λ n. record n {
    sessions =
        set_session socket
          (record { principal = principal; role = role; device_id = device_id; unregister = u })
          n.sessions;
  })

-- The `catch` of the handler.
abbrev pub dismiss : ℕ → AppError → S Unit
dismiss socket e = close_peer socket 4000

-- After the verification of the token.
unfoldable pub welcome : ℕ → RealtimeHello → AuthPrincipal → S Unit
unfolding register
welcome socket hello principal =
    try_catch
      (register socket principal hello.role hello.device_id
        >> (put_state (λ n. record n { authenticated = socket ∷ n.authenticated })
            >> send_to socket (server_hello principal.tenant_id hello.device_id)))
      (dismiss socket)

abbrev pub session_of : Option SessionState → S SessionState
session_of none = throw (plain_error "Session registration was lost")
session_of (some s) = pure s

abbrev pub is_agent : Role → Bool
is_agent agent = true
is_agent web = false

unfoldable pub take_report : Moment → ℕ → SessionState → Option AgentReport → S Unit
take_report t socket s none = throw (plain_error "Agent report does not fit the schema")
take_report t socket s (some report) = do
  require (report.tenant_id == s.principal.tenant_id && opt_eq (some report.device_id) s.device_id)
      (plain_error "Agent report identity does not match the authenticated session")
  publish_report t report
  put_state (λ n. record n { reported = report ∷ n.reported })
  send_to socket (report_ack report.report_id)

unfoldable pub serve_session : Moment → ℕ → SessionState → Incoming → S Unit
unfolding take_report
serve_session t socket s (binary bytes) = do
  require (is_agent s.role) (plain_error "Only agents may upload browser frames")
  relay_frame t s.principal.tenant_id bytes
serve_session t socket s heartbeat = pure tt
serve_session t socket s (agent_report report) = do
  require (is_agent s.role) (plain_error "Message type is not allowed for this session")
  take_report t socket s report
serve_session t socket s other_message =
    throw (plain_error "Message type is not allowed for this session")
serve_session t socket s malformed = throw (plain_error "Unexpected message")

unfoldable pub serve_message : Moment → ℕ → Incoming → S Unit
serve_message t socket message = do
  known ← gets (λ n. n.authenticated)
  require (any (nat_eq socket) known) (plain_error "client.hello is required")
  session ← gets (λ n. find_session socket n.sessions)
  s ← session_of session
  serve_session t socket s message

unfoldable pub on_message : Moment → ℕ → Incoming → S Unit
unfolding serve_message
on_message t socket message = try_catch (serve_message t socket message) (dismiss socket)

abbrev pub drop_session : Option SessionState → Net → Net
drop_session none n = n
drop_session (some s) n = unregister s.unregister n

-- The handler of the socket's close.
unfoldable pub on_close : ℕ → Net → Net
unfolding delete_session
on_close socket n =
    let m = drop_session (find_session socket n.sessions) n in
    record m { sessions = delete_session socket m.sessions }

-- `onModuleDestroy`, for the sockets that have a session.
unfoldable pub close_all : List (ℕ × SessionState) → S Unit
close_all [] = pure tt
close_all ((socket, s) ∷ rest) = do close_peer socket 1001; close_all rest

pub data Event : Type 0 where
  verified : ℕ → RealtimeHello → AuthPrincipal → Event
  -- The token or the message was refused before a principal was known.
  refused : ℕ → Event
  -- The timer of a socket that did not authenticate in time.
  timed_out : ℕ → Event
  received : Moment → ℕ → Incoming → Event
  disconnected : ℕ → Event
  dispatched : Moment → AgentCommand → Event
  shut_down : Event

unfoldable pub happen : Net → Event → Net
unfolding welcome on_message on_close close_all
happen n (verified socket hello principal) = (welcome socket hello principal n).1
happen n (refused socket) = (close_peer socket 4000 n).1
happen n (received t socket message) = (on_message t socket message n).1
happen n (disconnected socket) = on_close socket n
happen n (dispatched t command) = (dispatch t command n).1
happen n (timed_out socket) = (close_peer socket 4001 n).1
happen n shut_down = (close_all n.sessions n).1
