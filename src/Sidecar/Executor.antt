-- ===== src/Sidecar/Executor.antt =====
-- apps/desktop/src/agent/sidecar-executor.ts on top of the client. `execute` is parted where it waits
-- for the target and where it waits for the result. The id that a command gives its task is the task's.
pub mod ReadOnly
use smart_form.Base.{
  String, Bool, true, false, not, ◌&&◌, Option, none, some, List, [], ◌∷◌, map, ◌==◌, is_some,
  if◌then◌else◌, text_concat, truthy, any,
}
use smart_form.Base.Exec.{Exec, pure, throw, gets, put_state, ◌>>=◌, ◌>>◌, require}
use smart_form.Contracts.Artifact.{Failure, error}
use smart_form.Contracts.Task.{TaskDefinition, TaskMode, read, is_write, FieldDefinition}
use smart_form.Artifacts.{join_lines}
use smart_form.Sidecar.{
  Client, new_client, RequestType, pause, resume, cancel, request, begin_execution,
}
use smart_form.Sidecar.Process.{plain_request}
use smart_form.Sidecar.Process
use smart_form.Sidecar

-- `aiming` are the tasks whose executions wait for the target, `handed` those that the client was asked
-- to execute, with the prompt.
pub record Adapter : Type 0 where
  pub task_id : Option String
  pub execution : Bool
  pub client : Client
  pub aiming : List TaskDefinition
  pub handed : List (TaskDefinition × String)

abbrev pub new_adapter : Adapter
new_adapter = record {
  task_id = none;
  execution = false;
  client = new_client;
  aiming = [];
  handed = [];
}

abbrev pub A : Type 0 → Type 0
A = Exec Failure Adapter

-- `names.join(', ')`.
abbrev join_names : List String → String
join_names [] = ""
join_names (name ∷ []) = name
join_names (name ∷ next ∷ names) = text_concat name (text_concat ", " (join_names (next ∷ names)))

abbrev without_empty : List String → List String
without_empty [] = []
without_empty (line ∷ lines) =
    let rest = without_empty lines in if line == "" then rest else line ∷ rest

abbrev or_text : String → String → String
or_text text fallback = if text == "" then fallback else text

abbrev description_lines : Option String → List String
description_lines none = []
description_lines (some text) = text ∷ []

unfoldable pub prompt_of : TaskDefinition → String
prompt_of task = join_lines (
    without_empty (
      task.title
      ∷ task.description
      ∷ text_concat "Collect entity: " (text_concat task.entity ".")
      ∷ text_concat "Requested fields: " (
          text_concat
            (or_text (join_names (map (λ (f : FieldDefinition). f.name) task.fields))
              "(unspecified)")
            ".")
      ∷ []))

-- What an operation takes from the host: a new request id and whether the request can be sent.
pub record Channel : Type 0 where
  pub request_id : String
  pub sendable : Bool

-- `client.control`, whose wait for `start` is over.
abbrev pub control : Channel → RequestType → Adapter → Adapter
control c t s = record s {
  client = request c.sendable (plain_request t c.request_id) (Sidecar.start s.client);
}

abbrev pub take : TaskDefinition → Adapter → Adapter
take task s = record s { task_id = some task.id; aiming = task ∷ s.aiming }

-- `execute` up to the wait for the target, or for the request to resume.
unfoldable pub begin : Channel → Bool → TaskDefinition → A Unit
unfolding request Sidecar.start
begin c is_resume task = do
  require (not (is_write task.mode)) (error "Browser Use Sidecar is restricted to read tasks")
  if is_resume
      then (do
        paused ← gets (λ s. truthy s.task_id && s.execution)
        require paused (error "Sidecar has no paused task to resume")
        put_state (control c resume))
      else (do
        free ← gets (λ s. not s.execution)
        require free (error "Sidecar executor already has an active task")
        put_state (take task))

abbrev pub find_task : String → List TaskDefinition → Option TaskDefinition
find_task id [] = none
find_task id (t ∷ ts) = if t.id == id then some t else find_task id ts

abbrev pub remove_task : String → List TaskDefinition → List TaskDefinition
remove_task id [] = []
remove_task id (t ∷ ts) = let rest = remove_task id ts in if t.id == id then ts else t ∷ rest

abbrev pub execute_task : Channel → TaskDefinition → Adapter → Adapter
execute_task c task s = record s {
  execution = true;
  handed = (task, prompt_of task) ∷ s.handed;
  client = begin_execution c.sendable c.request_id task.id (Sidecar.start s.client);
}

abbrev pub aim : Channel → Bool → String → Option TaskDefinition → Adapter → Adapter
aim c found id none s = s
aim c found id (some task) s =
    let s' = record s { aiming = remove_task id s.aiming } in
    if found then execute_task c task s' else s'

-- The target of a task that waits for it is found or not; without one `execute` throws.
unfoldable pub hand_over : Channel → Bool → String → Adapter → Adapter
unfolding begin_execution Sidecar.start prompt_of
hand_over c found id s = aim c found id (find_task id s.aiming) s

-- The `finally` of `execute`.
unfoldable pub settle : Adapter → Adapter
settle s = record s { task_id = none; execution = false }

unfoldable pub pause_task : Channel → A Unit
unfolding request Sidecar.start
pause_task c = do
  active ← gets (λ s. truthy s.task_id)
  require active (error "Sidecar has no active task")
  put_state (control c pause)

unfoldable pub cancel_task : Channel → Adapter → Adapter
unfolding request Sidecar.start
cancel_task c s = if not (truthy s.task_id) then s else control c cancel s

-- `client_event` is what happens to the client's process and requests.
pub data Event : Type 0 where
  begins : Channel → Bool → TaskDefinition → Event
  aims : Channel → Bool → String → Event
  settles : Event
  pauses cancels : Channel → Event
  client_event : Process.Event → Event

unfoldable pub happen : Event → Adapter → Adapter
unfolding begin hand_over settle pause_task cancel_task Process.happen
happen (begins c is_resume task) s = (begin c is_resume task s).1
happen (aims c found id) s = hand_over c found id s
happen settles s = settle s
happen (pauses c) s = (pause_task c s).1
happen (cancels c) s = cancel_task c s
happen (client_event e) s = record s { client = Process.happen e s.client }

unfoldable pub happen_all : List Event → Adapter → Adapter
unfolding happen
happen_all [] s = s
happen_all (e ∷ es) s = happen_all es (happen e s)
