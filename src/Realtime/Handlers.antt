-- ===== src/Realtime/Handlers.antt =====
-- What the client does when something happens to its socket, a timer or a call, and all that can happen.
use smart_form.Base.{
  ℕ, ◌+◌, ◌*◌, ◌^◌, String, Bool, true, false, ◌&&◌, ◌||◌, Option, none, some, List, [], ◌∷◌, ◌==◌,
  min, truthy, if◌then◌else◌,
}
use smart_form.Base.Exec.{pure, throw, gets, put_state, ◌>>=◌, ◌>>◌, require, try_catch}
use smart_form.Contracts.Artifact.{Failure, error}
use smart_form.Contracts.Protocol.{AgentCommand, AgentReport, envelope_of}
use smart_form.Database.{OutboxRecord, enqueue_report, list_outbox, acknowledge_report}
use smart_form.Realtime.{
  AgentRealtimeClientConfig, C, Client, Incoming, Reports, close_socket, connect, emit,
  is_available, is_open, report_message, required, row_of, send_json, settle, start, stop,
  client_hello, client_heartbeat, frame, server_hello, task_command, report_ack, other, malformed,
  command, connected, disconnected, client_error,
}

-- `Math.min(30_000, 1_000 * 2 ** attempt)`.
unfoldable pub delay_of : ℕ → ℕ
delay_of attempt = min 30000 (1000 * 2 ^ attempt)

abbrev pub is_off : Option Bool → Bool
is_off (some false) = true
is_off _ = false

module _ (c : AgentRealtimeClientConfig) (reports : Reports) where
  -- `sendReport` up to the wait for the disk.
  unfoldable pub queue_report : AgentReport → C AgentReport
  queue_report input = do
    r ← required (reports.parse (reports.print input))
    require (r.tenant_id == c.tenant_id && r.device_id == c.device_id)
        (error "Report identity does not match the configured device")
    put_state (λ s. record s { database = enqueue_report (row_of reports r) s.database })
    pure r

  -- `sendReport` after it.
  unfoldable pub transmit : AgentReport → C Unit
  unfolding send_json
  transmit r = do
    available ← gets is_available
    if available then send_json (report_message r) else pure tt

  unfoldable pub send_report : AgentReport → C Unit
  unfolding queue_report transmit
  send_report input = do r ← queue_report input; transmit r

  unfoldable pub send_frame : List ℕ → C Bool
  unfolding send_json
  send_frame bytes = do
    available ← gets is_available
    if available then (do send_json (frame bytes); pure true) else pure false

  -- Whether the loop of `flushOutbox` goes on.
  unfoldable pub flush_record : OutboxRecord → C Bool
  unfolding send_json
  flush_record row =
      try_catch
        (do r ← required (reports.parse row.payload); send_json (report_message r); pure true)
        (λ e. do emit (client_error e); pure false)

  unfoldable pub flush_records : List OutboxRecord → C Unit
  unfolding flush_record
  flush_records [] = pure tt
  flush_records (row ∷ rows) = do
    available ← gets is_available
    more ← (if available then flush_record row else pure false)
    if more then flush_records rows else pure tt

  unfoldable pub flush_outbox : C Unit
  unfolding flush_records list_outbox
  flush_outbox = do rows ← gets (λ s. list_outbox 100 s.database); flush_records rows

  unfoldable pub schedule_reconnect : C Unit
  unfolding delay_of
  schedule_reconnect = do
    stopped ← gets (λ s. s.stopped)
    if stopped || is_off c.reconnect
        then pure tt
        else put_state (λ s. record s {
          reconnect_timer = some (delay_of s.reconnect_attempt);
          reconnect_attempt = s.reconnect_attempt + 1;
        })

  -- The listeners of a socket.
  unfoldable pub on_open : ℕ → C Unit
  unfolding send_json
  on_open i = do
    put_state (λ s. record s { ready = i ∷ s.ready })
    send_json (client_hello c.access_token c.device_id)

  abbrev pub required_command : Option AgentCommand → C AgentCommand
  required_command none = throw (error "Invalid command")
  required_command (some k) = pure k

  unfoldable pub acknowledge : Option String → C Unit
  acknowledge none = throw (error "Report acknowledgment is missing reportId")
  acknowledge (some id) = do
    require (truthy (some id)) (error "Report acknowledgment is missing reportId")
    put_state (λ s. record s { database = acknowledge_report id s.database })

  unfoldable pub take_message : ℕ → Incoming → C Unit
  unfolding flush_outbox acknowledge
  take_message i server_hello = do
    put_state
        (λ s. record s { authenticated = true; reconnect_attempt = 0; heartbeat_timer = true })
    flush_outbox
    emit connected
    settle i true
  take_message i (task_command parsed) = do
    k ← required_command parsed
    require ((envelope_of k).tenant_id == c.tenant_id && (envelope_of k).device_id == c.device_id)
        (error "Received a command for another tenant or device")
    emit (command k)
  take_message i (report_ack id) = acknowledge id
  take_message i other = pure tt
  take_message i malformed = throw (error "Invalid message")

  unfoldable pub on_message : ℕ → Incoming → C Unit
  unfolding take_message
  on_message i m = try_catch (take_message i m) (λ e. do emit (client_error e); close_socket i)

  unfoldable pub on_error : ℕ → Failure → C Unit
  on_error i e = do emit (client_error e); settle i false

  unfoldable pub on_close : ℕ → C Unit
  unfolding schedule_reconnect
  on_close i = do
    close_socket i
    put_state (λ s. record s { authenticated = false; heartbeat_timer = false })
    emit disconnected
    settle i false
    schedule_reconnect

  -- The interval of `startHeartbeat`.
  unfoldable pub beat : C Unit
  unfolding send_json
  beat = do
    open_now ← gets (λ s. is_open s.socket s.ready)
    if open_now then send_json (client_heartbeat c.device_id c.protocol_version) else pure tt

-- What happens to a client.
pub data Event : Type 0 where
  started stopping : Event
  report_queued report_saved : AgentReport → Event
  frame_taken : List ℕ → Event
  socket_open socket_closed : ℕ → Event
  message_came : ℕ → Incoming → Event
  socket_failed : ℕ → Failure → Event
  reconnect_due heartbeat_due : Event

abbrev done : {A : Type 0} → C A → C Unit
done m = m >>= λ _. pure tt

module _ (c : AgentRealtimeClientConfig) (reports : Reports) where
  unfoldable pub handle : Event → C Unit
  handle started = start
  handle stopping = stop
  handle (report_queued r) = done (queue_report c reports r)
  handle (report_saved r) = transmit c reports r
  handle (frame_taken bytes) = done (send_frame c reports bytes)
  handle (socket_open i) = on_open c reports i
  handle (socket_closed i) = on_close c reports i
  handle (message_came i m) = on_message c reports i m
  handle (socket_failed i e) = on_error c reports i e
  handle reconnect_due = connect
  handle heartbeat_due = beat c reports

  unfoldable pub happen_all : List Event → Client → Client
  happen_all [] s = s
  happen_all (e ∷ es) s = happen_all es (handle e s).1
