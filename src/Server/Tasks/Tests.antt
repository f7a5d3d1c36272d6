-- ===== src/Server/Tasks/Tests.antt =====
-- A task of a tenant with a colon in its name, and a control of it.
use smart_form.Base.{◌≡◌, refl, true, none, some, [], ◌∷◌}
use smart_form.Contracts.Task.{TaskDefinition, collect, read, jsonl, local}
use smart_form.Contracts.Protocol.{cancel_task}
use smart_form.Server.Isolation.Events.{quiet_net}
use smart_form.Server.Tasks.{TaskRouteRecord, Plane, Stamp, TaskControlRequest, find, save}
use smart_form.Server.Tasks.Keys.{find_across_tenants}

abbrev orders : TaskDefinition
orders = record {
  id = "t1";
  tenant_id = "a:b";
  workspace_id = "w1";
  title = "Orders";
  description = "";
  task_type = collect;
  mode = read;
  site = record { entry_url = "forms.example.com"; allowed_domains = []; module_hint = none };
  entity = "order";
  fields = [];
  scope = none;
  pagination = none;
  output = record { format = jsonl; destination = local };
  input = none;
  budget = record {
    max_steps = 100;
    step_timeout_ms = 1;
    total_timeout_ms = 1;
    max_cost_usd = "1";
  };
  created_at = "2026-07-31T00:00:00.000Z";
  updated_at = "2026-07-31T00:00:00.000Z";
}

abbrev registered : TaskRouteRecord
registered = record { tenant_id = "a:b"; device_id = "d1"; task = orders; state = "WAITING_DEVICE" }

abbrev plane : Plane
plane = record {
  net = record quiet_net {
    agents =
        (
          "a:b\0d1",
          record {
            peer = 1;
            principal = record { subject = "s"; tenant_id = "a:b"; device_id = none; scopes = [] };
            device_id = "d1";
          },
        )
        ∷ [];
  };
  tasks = [];
}

find_across_tenants_example : find "a" "b:t1" (save registered plane) ≡ some registered
find_across_tenants_example = find_across_tenants "a" "b" registered plane refl

abbrev stamp : Stamp
stamp = record {
  command_id = "c1";
  issued_at = "2026-07-31T00:00:00.000Z";
  expires_at = "2026-07-31T00:05:00.000Z";
  moment = record { parse_date = λ text. none; now = 0; is_open = λ peer. true };
}

abbrev cancel : TaskControlRequest
cancel = record { control_type = cancel_task; submission_id = none }
