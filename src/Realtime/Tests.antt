-- ===== src/Realtime/Tests.antt =====
-- Concrete runs of the realtime client.
use smart_form.Base.{ℕ, ◌≤◌, true, false, ◌≡◌, refl, Option, none, some, [], ◌∷◌, All, arith}
use smart_form.Contracts.Json.{str, Payload}
use smart_form.Contracts.Protocol.{AgentCommand, control, AgentReport, AgentReportType, pause_task}
use smart_form.Realtime.{
  AgentRealtimeClientConfig, Client, Reports, row_of, create, ParseUrl, task_command,
}
use smart_form.Realtime.Handlers.{message_came, happen_all, started, on_close, delay_of}
use smart_form.Realtime.Quiet.{commands}
use smart_form.Realtime.Drain.{IsReady, rounds, drained}
use smart_form.Realtime.Commands.{IsOwn, passed_commands-IsOwn}
use smart_form.Realtime.Backoff.{close_outcome}

abbrev config : AgentRealtimeClientConfig
config = record {
  server_url = "wss://control.example.com/v1/realtime";
  access_token = "token";
  tenant_id = "acme";
  device_id = "desk";
  protocol_version = "1";
  reconnect = none;
}

abbrev ack : AgentReport
ack = record {
  protocol_version = "1";
  report_id = "r1";
  report_type = AgentReportType.command_ack;
  tenant_id = "acme";
  device_id = "desk";
  task_id = some "t1";
  command_id = some "k1";
  sequence = 0;
  timestamp = 17;
  payload = [];
}

abbrev event : AgentReport
event = record ack { report_id = "r2"; report_type = AgentReportType.task_event; sequence = 1 }

-- A format that tells the two reports apart.
abbrev by_id : Payload → Option AgentReport
by_id [] = some ack
by_id _ = some event

abbrev in_json : AgentReport → Payload
in_json r = elim r.sequence [ ℕ.zero ↦ [] | ℕ.suc n ↦ ("sequence", str "1") ∷ [] ]

abbrev format : Reports
format = record { print = in_json; parse = by_id }

abbrev secure : ParseUrl
secure url = some ("wss:", "control.example.com")

abbrev fresh : Client
fresh = record {
  socket = none;
  authenticated = false;
  stopped = true;
  reconnect_attempt = 0;
  reconnect_timer = none;
  heartbeat_timer = false;
  next_socket = 0;
  ready = [];
  settled = [];
  sent = [];
  notices = [];
  database = record {
    local_tasks = [];
    task_events = [];
    checkpoints = [];
    outbox = [];
    command_receipts = [];
  };
}

created : create secure config fresh.database ≡ some fresh
unfolding create
created = refl

abbrev online : Client
online = record fresh {
  socket = some 1;
  authenticated = true;
  stopped = false;
  next_socket = 2;
  ready = 1 ∷ [];
  database = record fresh.database { outbox = row_of format event ∷ row_of format ack ∷ [] };
}

abbrev pause : AgentCommand
pause = control (record {
  envelope = record {
    protocol_version = "1";
    command_id = "k1";
    task_id = "t1";
    tenant_id = "acme";
    device_id = "desk";
    issued_at = "";
    expires_at = "";
  };
  control_type = pause_task;
  submission_id = none;
})

online-IsReady : IsReady format 1 config online
online-IsReady = record {
  on = refl;
  open_now = refl;
  held = (
    record { report = event; parses = refl; same_id = refl; named = refl },
    (record { report = ack; parses = refl; same_id = refl; named = refl }, tt),
  );
}

passed_commands-IsOwn_example : All (IsOwn config format) (
    commands
      (happen_all config format
        (started ∷ message_came 0 (task_command (some pause)) ∷ [])
        fresh).notices)
passed_commands-IsOwn_example =
    passed_commands-IsOwn config format (started ∷ message_came 0 (task_command (some pause)) ∷ [])
      fresh tt

drained_example : (rounds format 1 config 1 online).database.outbox ≡ []
drained_example = drained format 1 config 1 online online-IsReady (omega arith)

close_outcome_example :
    (d : ℕ) × ((on_close config format 1 online).1.reconnect_timer ≡ some d)
    × (1000 ≤ d)
    × (d ≤ 30000)
    × (d ≤ delay_of (on_close config format 1 online).1.reconnect_attempt)
    × (5 ≤ online.reconnect_attempt → d ≡ 30000)
close_outcome_example = close_outcome config format 1 online refl
