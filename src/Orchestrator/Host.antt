-- ===== src/Orchestrator/Host.antt =====
-- The state of `DesktopTaskOrchestrator` and of the objects it owns, and what it asks of the host:
-- the browser page, the executors, the disk, the server, the clock. `W` is all that the host keeps.
-- Operations pass through one queue, so none starts before the last has returned; a call of the host
-- is taken to return.
use smart_form.Base.{ℕ, String, Bool, Option, List}
use smart_form.Base.Exec.{Exec, Part, zoom}
use smart_form.Contracts.Json.{Json}
use smart_form.Contracts.Artifact.{Failure, ArtifactReference}
use smart_form.Contracts.Resource.{ManagedResourceVersion}
use smart_form.Contracts.Protocol.{StartTaskCommand, AgentReport}
use smart_form.Lease.{AutomationExecutor, ControlLease, BrowserProbe, Authority, Urls}
use smart_form.Database.{Tables}

pub record Host (W : Type 0) : Type 0 where
  pub urls : Urls
  pub now : Exec Failure W ℕ
  pub uuid : Exec Failure W String
  -- `Date.parse`, `none` for `NaN`.
  pub parse_date : String → Option ℕ
  -- `artifactLoader.load`.
  pub load : ArtifactReference → Exec Failure W (List ℕ)
  pub goto : String → Exec Failure W Unit
  pub page_url : W → String
  pub page_title : Exec Failure W String
  pub bring_to_front : Exec Failure W Unit
  pub custom_probe : Option (Exec Failure W BrowserProbe)
  pub has_executor : AutomationExecutor → Bool
  pub can_approve : AutomationExecutor → Bool
  pub can_reject : AutomationExecutor → Bool
  -- `execute` starts in the background; its end comes back as an operation.
  pub execute : AutomationExecutor → StartTaskCommand → String → Bool → W → W
  pub pause : AutomationExecutor → Exec Failure W Unit
  pub drain : AutomationExecutor → Exec Failure W Unit
  pub cancel : AutomationExecutor → Exec Failure W Unit
  pub approve : AutomationExecutor → String → Exec Failure W Unit
  pub reject : AutomationExecutor → String → Exec Failure W Unit
  pub start_frames : String → Exec Failure W Unit
  pub stop_frames : Exec Failure W Unit
  pub send_report : AgentReport → Exec Failure W Unit
  pub persist : Exec Failure W Unit
  -- `JSON.stringify` of a number, and of the values that travel with a task.
  pub number_text : ℕ → String
  pub artifact_json : ArtifactReference → Json
  pub resource_json : ManagedResourceVersion → Json

pub record Identity : Type 0 where
  pub tenant_id : String
  pub device_id : String
  pub protocol_version : String

-- `serial` tells one `ActiveTask` object from another, as `===` does.
pub record ActiveTask : Type 0 where
  pub serial : ℕ
  pub command : StartTaskCommand
  pub executor : AutomationExecutor
  pub lease : ControlLease
  pub artifact : Option (List ℕ)
  pub expected_human_probe : Option BrowserProbe

pub record State (W : Type 0) : Type 0 where
  pub active : Option ActiveTask
  pub report_sequence : ℕ
  pub control : Authority
  pub database : Tables
  pub next_serial : ℕ
  pub world : W

abbrev pub M : Type 0 → Type 0 → Type 0
M W A = Exec Failure (State W) A

module _ {W : Type 0} where
  abbrev pub world_part : Part (State W) W
  world_part = record { get = λ s. s.world; set = λ w s. record s { world = w } }

  abbrev pub control_part : Part (State W) Authority
  control_part = record { get = λ s. s.control; set = λ a s. record s { control = a } }

  abbrev pub ask : {A : Type 0} → Exec Failure W A → M W A
  ask m = zoom world_part m
