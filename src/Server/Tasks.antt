-- ===== src/Server/Tasks.antt =====
-- apps/server/src/tasks: in-memory-task.repository.ts, and of task-coordinator.ts the listener of the
-- hub, register and dispatchControl. The ids and the texts of dates of a new command are arguments.
pub mod Control
pub mod Keys
mod Tests
use smart_form.Base.{
  String, Bool, true, false, not, ◌&&◌, ◌||◌, Option, none, some, List, [], ◌∷◌, ◌==◌, text_concat,
  any, truthy, if◌then◌else◌,
}
use smart_form.Base.Exec.{Exec, pure, throw, gets, put_state, ◌>>=◌, ◌>>◌, require, Part, zoom}
use smart_form.Contracts.Json.{Json, Payload}
use smart_form.Contracts.Task.{TaskDefinition}
use smart_form.Contracts.Protocol.{
  AgentCommand, start_task, control, Envelope, ControlType, pause_task, request_takeover,
  resume_after_human, cancel_task, approve_submit, reject_submit, AgentReport, AgentReportType,
  task_event, control_name,
}
use smart_form.Database.Table.{select, upsert}
use smart_form.Server.Maps.{entry_key, entry_set, value_of}
use smart_form.Server.{AppError, validation_error, not_found_error}
use smart_form.Server.Sessions.{Net, Moment}
use smart_form.Server.Sessions

pub record TaskRouteRecord : Type 0 where
  pub tenant_id : String
  pub device_id : String
  pub task : TaskDefinition
  pub state : String

-- `tasks` is the `Map` of the repository.
pub record Plane : Type 0 where
  pub net : Net
  pub tasks : List (String × TaskRouteRecord)

abbrev pub P : Type 0 → Type 0
P A = Exec AppError Plane A

abbrev pub net_part : Part Plane Net
net_part = record { get = λ s. s.net; set = λ n s. record s { net = n } }

abbrev pub task_key : String → String → String
task_key tenant_id task_id = text_concat tenant_id (text_concat ":" task_id)

unfoldable pub put_task : String → TaskRouteRecord → Plane → Plane
unfolding upsert
put_task key r s = record s { tasks = upsert entry_key entry_set (key, r) s.tasks }

unfoldable pub save : TaskRouteRecord → Plane → Plane
unfolding put_task
save r s = put_task (task_key r.tenant_id r.task.id) r s

unfoldable pub find : String → String → Plane → Option TaskRouteRecord
unfolding select
find tenant_id task_id s = value_of (select entry_key (task_key tenant_id task_id) s.tasks)

abbrev updated : String → String → Option TaskRouteRecord → Plane → Plane
updated key state none s = s
updated key state (some r) s = put_task key (record r { state = state }) s

unfoldable pub update_state : String → String → String → Plane → Plane
unfolding find put_task
update_state tenant_id task_id state s =
    updated (task_key tenant_id task_id) state (find tenant_id task_id s) s

abbrev state_names : List String
state_names =
    "DRAFT" ∷ "PLANNING" ∷ "WAITING_DEVICE" ∷ "MATCHING" ∷ "REUSING" ∷ "EXPLORING" ∷ "WAITING_HUMAN"
    ∷ "COLLECTING" ∷ "DATA_VALIDATING" ∷ "COMPILING" ∷ "REPLAYING" ∷ "PUBLISHING" ∷ "FILLING"
    ∷ "SUBMIT_PENDING" ∷ "WAITING_APPROVAL_SUBMIT" ∷ "SUBMITTING" ∷ "SUBMITTED" ∷ "SUBMIT_FAILED"
    ∷ "SUBMIT_UNKNOWN" ∷ "SUCCEEDED" ∷ "FAILED" ∷ "CANCELLED" ∷ "PAUSED" ∷ []

-- `TaskState.safeParse`.
abbrev pub parse_state : Option Json → Option String
parse_state (some (Json.str name)) = if any (λ s. s == name) state_names then some name else none
parse_state _ = none

unfoldable pub field : String → Payload → Option Json
field key [] = none
field key ((k, v) ∷ rest) = if k == key then some v else field key rest

abbrev is_event : AgentReportType → Bool
is_event task_event = true
is_event _ = false

abbrev heard_state : AgentReport → Option String → Option String → Plane → Plane
heard_state r (some task_id) (some state) s =
    if is_event r.report_type && truthy (some task_id)
    then update_state r.tenant_id task_id state s
    else s
heard_state r _ _ s = s

-- The listener that the constructor gives to the hub.
unfoldable pub on_report : AgentReport → Plane → Plane
unfolding update_state field
on_report r s = heard_state r r.task_id (parse_state (field "state" r.payload)) s

unfoldable pub register : AgentCommand → P Unit
unfolding save
register (control c) = pure tt
register (start_task c) = put_state (
    save (record {
      tenant_id = c.envelope.tenant_id;
      device_id = c.envelope.device_id;
      task = c.task;
      state = "WAITING_DEVICE";
    }))

pub record TaskControlRequest : Type 0 where
  pub control_type : ControlType
  pub submission_id : Option String

abbrev pub needs_submission : ControlType → Bool
needs_submission approve_submit = true
needs_submission reject_submit = true
needs_submission _ = false

-- What a new command takes from the host.
pub record Stamp : Type 0 where
  pub command_id : String
  pub issued_at : String
  pub expires_at : String
  pub moment : Moment

abbrev pub route : String → Option TaskRouteRecord → P TaskRouteRecord
route task_id none = throw (not_found_error "active task" task_id)
route task_id (some r) = pure r

abbrev pub control_command : String → String → String → TaskControlRequest → Stamp → AgentCommand
control_command tenant_id task_id device_id request stamp = control (record {
  envelope = record {
    protocol_version = "1.0.0";
    command_id = stamp.command_id;
    task_id = task_id;
    tenant_id = tenant_id;
    device_id = device_id;
    issued_at = stamp.issued_at;
    expires_at = stamp.expires_at;
  };
  control_type = request.control_type;
  submission_id = request.submission_id;
})

unfoldable pub cancelled_plane : String → String → ControlType → Plane → Plane
unfolding update_state
cancelled_plane tenant_id task_id cancel_task s = update_state tenant_id task_id "CANCELLED" s
cancelled_plane tenant_id task_id kind s = s

abbrev pub mark_cancelled : String → String → ControlType → P Unit
mark_cancelled tenant_id task_id kind = put_state (cancelled_plane tenant_id task_id kind)

unfoldable pub dispatch_control : String → String → TaskControlRequest → Stamp → P AgentCommand
unfolding find cancelled_plane
dispatch_control tenant_id task_id request stamp = do
  known ← gets (find tenant_id task_id)
  r ← route task_id known
  require (not (needs_submission request.control_type && not (truthy request.submission_id)))
      (validation_error (text_concat (control_name request.control_type) " requires submissionId"))
  let command = control_command tenant_id task_id r.device_id request stamp
  zoom net_part (Sessions.dispatch stamp.moment command)
  mark_cancelled tenant_id task_id request.control_type
  pure command
