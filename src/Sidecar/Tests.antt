-- ===== src/Sidecar/Tests.antt =====
-- Concrete runs of the sidecar's client.
use smart_form.Base.{true, false, ◌≡◌, refl, none, some, List, [], ◌∷◌}
use smart_form.Sidecar.{Client, new_client, pause, ack, result, SidecarResponse, resolved}
use smart_form.Sidecar.Process.{on_exit, Event, starts, executes, controls, line, happen_all}
use smart_form.Contracts.Task.{
  TaskDefinition, TaskMode, TaskBudget, read, write, collect, jsonl, local,
}
use smart_form.Artifacts
use smart_form.Sidecar.Executor
use smart_form.Sidecar.Executor.{Channel, prompt_of, begins, aims, new_adapter}
use smart_form.Sidecar.Executor.ReadOnly.{IsReadOnly, adapter-IsReadOnly}
use smart_form.Sidecar.Environment.{build_sidecar_environment}

abbrev acked : SidecarResponse
acked = record { response_type = ack; request_id = some "r1"; task_id = none }

abbrev finished : SidecarResponse
finished = record { response_type = result; request_id = some "r1"; task_id = some "t1" }

abbrev story : List Event
story = starts ∷ executes true "r1" "t1" ∷ controls true pause "r2" ∷ line 0 (some acked) ∷ []

-- The execution ends with its result, the request to pause with the process.
story_ends :
    (on_exit 0 (happen_all (line 0 (some finished) ∷ []) (happen_all story new_client))).tasks
    ≡ ("t1", resolved) ∷ []
unfolding happen_all on_exit
story_ends = refl

abbrev spawned : Client
spawned = record new_client {
  process = some 0;
  ready_promise = some 0;
  children = 1;
  starting = 0 ∷ [];
}

-- A secret of the desktop stays there.
environment :
    build_sidecar_environment (
      ("PATH", some "/bin")
      ∷ ("DATABASE_URL", some "secret")
      ∷ ("BROWSER_USE_MODEL", some "m")
      ∷ ("HOME", none)
      ∷ [])
    ≡ ("PATH", "/bin") ∷ ("BROWSER_USE_MODEL", "m") ∷ []
unfolding build_sidecar_environment
environment = refl

abbrev channel : Channel
channel = record { request_id = "r1"; sendable = true }

abbrev budget : TaskBudget
budget = record {
  max_steps = 100;
  step_timeout_ms = 30000;
  total_timeout_ms = 1800000;
  max_cost_usd = "1";
}

abbrev task : TaskMode → TaskDefinition
task mode = record {
  id = "t1";
  tenant_id = "acme";
  workspace_id = "w1";
  title = "Orders";
  description = "";
  task_type = collect;
  mode = mode;
  site = record {
    entry_url = "https://a.example";
    allowed_domains = "a.example" ∷ [];
    module_hint = none;
  };
  entity = "record";
  fields = [];
  scope = none;
  pagination = none;
  output = record { format = jsonl; destination = local };
  input = none;
  budget = budget;
  created_at = "2026-07-31T00:00:00.000Z";
  updated_at = "2026-07-31T00:00:00.000Z";
}

prompt : prompt_of (task read) ≡ "Orders\nCollect entity: record.\nRequested fields: (unspecified)."
unfolding prompt_of smart_form.Artifacts.join_lines
prompt = refl

adapter-IsReadOnly_example : IsReadOnly (
    Executor.happen_all
      (begins channel false (task read)
        ∷ begins channel false (task write)
        ∷ aims channel true "t1"
        ∷ [])
      new_adapter)
adapter-IsReadOnly_example = adapter-IsReadOnly (
    begins channel false (task read)
    ∷ begins channel false (task write)
    ∷ aims channel true "t1"
    ∷ [])
