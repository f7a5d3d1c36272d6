-- ===== src/Contracts/Protocol.antt =====
-- packages/contracts/src/agent-protocol.ts: what the control plane and the desktop agent exchange.
use smart_form.Base.{String, Option, List, ℕ}
use smart_form.Contracts.Json.{Payload}
use smart_form.Contracts.Task.{TaskDefinition}
use smart_form.Contracts.Artifact.{ArtifactReference}
use smart_form.Contracts.Resource.{ManagedResourceVersion}

-- What every command carries.
pub record Envelope : Type 0 where
  pub protocol_version : String
  pub command_id : String
  pub task_id : String
  pub tenant_id : String
  pub device_id : String
  pub issued_at : String
  pub expires_at : String

pub record StartTaskCommand : Type 0 where
  pub envelope : Envelope
  pub task : TaskDefinition
  pub capability : Option ArtifactReference
  pub resources : List ManagedResourceVersion

pub data ControlType : Type 0 where
  pause_task request_takeover resume_after_human : ControlType
  cancel_task approve_submit reject_submit : ControlType

pub record AgentControlCommand : Type 0 where
  pub envelope : Envelope
  pub control_type : ControlType
  pub submission_id : Option String

pub data AgentCommand : Type 0 where
  start_task : StartTaskCommand → AgentCommand
  control : AgentControlCommand → AgentCommand

abbrev pub envelope_of : AgentCommand → Envelope
envelope_of (start_task c) = c.envelope
envelope_of (control c) = c.envelope

abbrev pub control_name : ControlType → String
control_name pause_task = "PAUSE_TASK"
control_name request_takeover = "REQUEST_TAKEOVER"
control_name resume_after_human = "RESUME_AFTER_HUMAN"
control_name cancel_task = "CANCEL_TASK"
control_name approve_submit = "APPROVE_SUBMIT"
control_name reject_submit = "REJECT_SUBMIT"

-- The command's `type`.
abbrev pub command_type : AgentCommand → String
command_type (start_task c) = "START_TASK"
command_type (control c) = control_name c.control_type

pub data AgentReportType : Type 0 where
  command_ack command_rejected task_event task_checkpoint : AgentReportType
  artifact_rejected_report device_heartbeat : AgentReportType

pub record AgentReport : Type 0 where
  pub protocol_version : String
  pub report_id : String
  pub report_type : AgentReportType
  pub tenant_id : String
  pub device_id : String
  pub task_id : Option String
  pub command_id : Option String
  pub sequence : ℕ
  pub timestamp : ℕ
  pub payload : Payload
