-- ===== src/Orchestrator/Start.antt =====
-- apps/desktop/src/agent/task-orchestrator.ts: the active task, and how a task starts.
use smart_form.Base.{
  ℕ, suc, String, Bool, true, false, not, ◌&&◌, Option, none, some, List, [], ◌∷◌, map, ◌==◌,
  if◌then◌else◌, includes, text_concat, is_some,
}
use mathlib.Core.Option
use smart_form.Base.Exec.{Exec, pure, throw, gets, put_state, ◌>>=◌, ◌>>◌, require, zoom}
use smart_form.Contracts.Json.{Json, Items, str, Payload, spread}
use smart_form.Contracts.Artifact.{Failure, error, ArtifactReference}
use smart_form.Contracts.Task.{is_write}
use smart_form.Contracts.Protocol.{StartTaskCommand}
use smart_form.Lease.{
  AutomationExecutor, playwright_runner, browser_use_sidecar, BrowserProbe, Urls, hostname_of,
  holder_name, automation,
}
use smart_form.Lease
use smart_form.Database.{LocalTaskRecord}
use smart_form.Database
use smart_form.Orchestrator.Host.{Host, ActiveTask, M, ask, control_part}
use smart_form.Orchestrator.Records.{probe_browser, save_checkpoint, write_database}

abbrev pub as_url : String → String
as_url value = if includes value "://" then value else text_concat "https://" value

-- `some` calls its test on one domain after another, and a URL that does not parse throws.
unfoldable pub some_domain : {S : Type 0} → Urls → String → List String → Exec Failure S Bool
some_domain urls hostname [] = pure false
some_domain urls hostname (value ∷ values) = do
  candidate ← hostname_of urls (as_url value)
  if candidate == hostname then pure true else some_domain urls hostname values

unfoldable pub hostname_matches : {S : Type 0} → Urls → String → List String → Exec Failure S Bool
unfolding some_domain
hostname_matches urls url allowed = do
  hostname ← hostname_of urls url
  some_domain urls hostname allowed

-- The executor that a task's artifact asks for.
abbrev pub executor_for : Option (List ℕ) → AutomationExecutor
executor_for none = browser_use_sidecar
executor_for (some artifact) = playwright_runner

abbrev text_items : List String → Items
text_items [] = Items.nil
text_items (s ∷ ss) = Items.cons (str s) (text_items ss)

abbrev json_items : List Json → Items
json_items [] = Items.nil
json_items (j ∷ js) = Items.cons j (json_items js)

module _ {W : Type 0} (h : Host W) where
  abbrev capability_entry : Option ArtifactReference → Payload
  capability_entry none = []
  capability_entry (some r) = ("capability", h.artifact_json r) ∷ []

  -- `undefined` is left out of the JSON text.
  abbrev task_context : StartTaskCommand → AutomationExecutor → Payload
  task_context c executor =
      spread (("allowedDomains", Json.arr (text_items c.task.site.allowed_domains)) ∷ []) (
        spread (capability_entry c.capability) (
          ("resources", Json.arr (json_items (map h.resource_json c.resources)))
          ∷ ("executor", str (holder_name (automation executor)))
          ∷ []))

  abbrev pub current_active : M W (Option ActiveTask)
  current_active = gets (λ s. s.active)

  -- An assignment to a field of the active task.
  abbrev pub update_active : (ActiveTask → ActiveTask) → M W Unit
  update_active f = put_state (λ s. record s { active = Option.map f s.active })

  -- The clock of a column that is `NOT NULL`.
  abbrev pub stored_date : Option ℕ → M W ℕ
  stored_date none = throw (error "NOT NULL constraint failed: local_tasks.created_at")
  stored_date (some t) = pure t

  unfoldable pub start_execution_of : Bool → Option ActiveTask → M W Unit
  start_execution_of resume none = pure tt
  start_execution_of resume (some a) =
      put_state
        (λ s. record s { world = h.execute a.executor a.command a.lease.token resume s.world })

  unfoldable pub start_execution : Bool → M W Unit
  unfolding start_execution_of
  start_execution resume = do active ← current_active; start_execution_of resume active

  abbrev pub idle : Option ActiveTask → M W Unit
  idle none = pure tt
  idle (some a) =
      throw (error (text_concat "Desktop is already executing task " a.command.envelope.task_id))

  abbrev pub load_artifact : Option ArtifactReference → M W (Option (List ℕ))
  load_artifact none = pure none
  load_artifact (some r) = do artifact ← ask (h.load r); pure (some artifact)

  -- `randomUUID()` and `Date.now()` of a new lease.
  unfoldable pub draw : M W (String × ℕ)
  draw = do uuid ← ask h.uuid; now ← ask h.now; pure (uuid, now)

  -- The part of `startTask` that takes the browser and names the task active.
  unfoldable pub take_stamped : StartTaskCommand → Option (List ℕ) → String × ℕ → M W Unit
  take_stamped c artifact stamp = do
    lease ←
        zoom control_part (Lease.acquire c.envelope.task_id (executor_for artifact) stamp.0 stamp.1)
    put_state (λ s. record s {
      active = some (record {
        serial = s.next_serial;
        command = c;
        executor = executor_for artifact;
        lease = lease;
        artifact = artifact;
        expected_human_probe = none;
      });
      next_serial = suc s.next_serial;
    })

  unfoldable pub take_control : StartTaskCommand → Option (List ℕ) → M W Unit
  take_control c artifact = do stamp ← draw; take_stamped c artifact stamp

  abbrev pub no_executor : AutomationExecutor → Failure
  no_executor executor =
      error (text_concat "Executor is unavailable: " (holder_name (automation executor)))

  -- What `startTask` checks before it touches the browser, up to the choice of the executor.
  unfoldable pub prepare : StartTaskCommand → M W (Option (List ℕ))
  unfolding hostname_matches
  prepare c = do
    active ← current_active
    idle active
    inside ← hostname_matches h.urls c.task.site.entry_url c.task.site.allowed_domains
    require inside (error "Task entry URL is outside its allowed domains")
    require (not (is_write c.task.mode && not (is_some c.capability)))
        (error "Write tasks require a validated capability; Sidecar cannot perform writes")
    artifact ← load_artifact c.capability
    require (h.has_executor (executor_for artifact)) (no_executor (executor_for artifact))
    pure artifact

  -- The part of `startTask` that records the task and opens its page.
  unfoldable pub open_page : StartTaskCommand → AutomationExecutor → M W BrowserProbe
  unfolding hostname_matches
  open_page c executor = do
    now ← ask h.now
    created ← stored_date (h.parse_date c.task.created_at)
    write_database h (
        Database.save_task (record {
          id = c.envelope.task_id;
          title = c.task.title;
          mode = c.task.mode;
          status = "PLANNING";
          target_url = c.task.site.entry_url;
          context = task_context c executor;
          state_version = 1;
          created_at = created;
          updated_at = now;
        }))
    ask (h.goto c.task.site.entry_url)
    probe ← probe_browser h
    inside ← hostname_matches h.urls probe.url c.task.site.allowed_domains
    require inside (error "Chromium navigated outside the allowed domains")
    pure probe

  unfoldable pub start_task : StartTaskCommand → M W Unit
  start_task c = do
    artifact ← prepare c
    probe ← open_page c (executor_for artifact)
    take_control c artifact
    save_checkpoint h "RUNNING" probe
    ask (h.start_frames c.envelope.task_id)
    start_execution false
