-- ===== src/Orchestrator/Tests.antt =====
-- A desktop whose host answers at once, and commands for it.
use smart_form.Base.{String, true, none, some, [], ◌∷◌}
use smart_form.Base.Exec.{pure}
use smart_form.Contracts.Json.{Json}
use smart_form.Contracts.Task.{TaskDefinition, collect, read, jsonl, local}
use smart_form.Contracts.Protocol.{
  AgentCommand, start_task, control, pause_task, cancel_task, Envelope,
}
use smart_form.Orchestrator.Host.{Host, Identity, State}
use smart_form.Orchestrator.Ownership.{IsOwned}
use smart_form.Orchestrator.Records.{send_report}
use smart_form.Orchestrator.Process.{command, run_queue}
use smart_form.Orchestrator.Queue.{run_queue-IsOwned}

abbrev host : Host (Unit {0})
host = record {
  urls = record { hostname = λ text. some text; lower = λ text. text };
  now = pure 10;
  uuid = pure "id";
  parse_date = λ text. some 20;
  load = λ reference. pure [];
  goto = λ url. pure tt;
  page_url = λ w. "forms.example.com";
  page_title = pure "Orders";
  bring_to_front = pure tt;
  custom_probe = none;
  has_executor = λ executor. true;
  can_approve = λ executor. true;
  can_reject = λ executor. true;
  execute = λ executor c token resume w. w;
  pause = λ executor. pure tt;
  drain = λ executor. pure tt;
  cancel = λ executor. pure tt;
  approve = λ executor id. pure tt;
  reject = λ executor id. pure tt;
  start_frames = λ id. pure tt;
  stop_frames = pure tt;
  send_report = λ report. pure tt;
  persist = pure tt;
  number_text = λ n. "0";
  artifact_json = λ reference. Json.null;
  resource_json = λ resource. Json.null;
}

abbrev me : Identity
me = record { tenant_id = "tenant"; device_id = "device"; protocol_version = "1.0.0" }

abbrev begin : State (Unit {0})
begin = record {
  active = none;
  report_sequence = 0;
  control = record { lease = none; epoch = 0 };
  database = record {
    local_tasks = [];
    task_events = [];
    checkpoints = [];
    outbox = [];
    command_receipts = [];
  };
  next_serial = 0;
  world = tt;
}

abbrev envelope : String → Envelope
envelope id = record {
  protocol_version = "1.0.0";
  command_id = id;
  task_id = "t1";
  tenant_id = "tenant";
  device_id = "device";
  issued_at = "2026-07-31T00:00:00.000Z";
  expires_at = "2026-07-31T00:05:00.000Z";
}

abbrev orders : TaskDefinition
orders = record {
  id = "t1";
  tenant_id = "tenant";
  workspace_id = "w1";
  title = "Orders";
  description = "";
  task_type = collect;
  mode = read;
  site = record {
    entry_url = "forms.example.com";
    allowed_domains = "forms.example.com" ∷ [];
    module_hint = none;
  };
  entity = "order";
  fields = [];
  scope = none;
  pagination = none;
  output = record { format = jsonl; destination = local };
  input = none;
  budget = record {
    max_steps = 100;
    step_timeout_ms = 1;
    total_timeout_ms = 1;
    max_cost_usd = "1";
  };
  created_at = "2026-07-31T00:00:00.000Z";
  updated_at = "2026-07-31T00:00:00.000Z";
}

abbrev starting : AgentCommand
starting =
    start_task
      (record { envelope = envelope "c1"; task = orders; capability = none; resources = [] })

abbrev pausing : AgentCommand
pausing =
    control (record { envelope = envelope "c2"; control_type = pause_task; submission_id = none })

abbrev cancelling : AgentCommand
cancelling =
    control (record { envelope = envelope "c2"; control_type = cancel_task; submission_id = none })

run_queue-IsOwned_example : IsOwned (
    run_queue host me (λ w. w) begin (command starting ∷ command pausing ∷ command cancelling ∷ []))
run_queue-IsOwned_example =
    run_queue-IsOwned host me (λ w. w)
      (command starting ∷ command pausing ∷ command cancelling ∷ []) begin (record { fact = tt })
