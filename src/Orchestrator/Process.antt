-- ===== src/Orchestrator/Process.antt =====
-- apps/desktop/src/agent/task-orchestrator.ts: the commands of the server, and the queue of
-- operations, which are the commands and what the executors report.
use smart_form.Base.{
  ℕ, String, Bool, true, false, not, ◌&&◌, Option, none, some, List, [], ◌∷◌, ◌==◌, leb,
  text_concat, if◌then◌else◌,
}
use smart_form.Base.Exec.{pure, gets, ◌>>=◌, ◌>>◌, require, try_catch}
use smart_form.Contracts.Json.{Json, str, Payload, with_entry}
use smart_form.Contracts.Artifact.{
  Failure, error, artifact_rejected, message, ArtifactReference, ArtifactRejectionCode,
  artifact_not_found, artifact_size_mismatch, artifact_hash_mismatch, artifact_signature_invalid,
  artifact_signing_key_unknown, artifact_manifest_invalid, tenant_mismatch, protocol_incompatible,
  sdk_incompatible, playwright_incompatible, node_incompatible, browser_incompatible,
  execution_mode_incompatible, permission_denied,
}
use smart_form.Contracts.Protocol.{
  AgentCommand, start_task, control, StartTaskCommand, Envelope, envelope_of, command_type,
  command_ack, command_rejected, artifact_rejected_report, AgentReportType,
}
use smart_form.Database.{CommandReceiptRecord, ReceiptStatus, processing, accepted, rejected}
use smart_form.Database
use smart_form.Orchestrator.Host.{Host, Identity, State, M, ask}
use smart_form.Orchestrator.Records.{save_receipt, send_report}
use smart_form.Orchestrator.Start
use smart_form.Orchestrator.Execution.{ExecutionOutcome, control_task, emit_event, finish_execution}

abbrev pub code_name : ArtifactRejectionCode → String
code_name artifact_not_found = "ARTIFACT_NOT_FOUND"
code_name artifact_size_mismatch = "ARTIFACT_SIZE_MISMATCH"
code_name artifact_hash_mismatch = "ARTIFACT_HASH_MISMATCH"
code_name artifact_signature_invalid = "ARTIFACT_SIGNATURE_INVALID"
code_name artifact_signing_key_unknown = "ARTIFACT_SIGNING_KEY_UNKNOWN"
code_name artifact_manifest_invalid = "ARTIFACT_MANIFEST_INVALID"
code_name tenant_mismatch = "TENANT_MISMATCH"
code_name protocol_incompatible = "PROTOCOL_INCOMPATIBLE"
code_name sdk_incompatible = "SDK_INCOMPATIBLE"
code_name playwright_incompatible = "PLAYWRIGHT_INCOMPATIBLE"
code_name node_incompatible = "NODE_INCOMPATIBLE"
code_name browser_incompatible = "BROWSER_INCOMPATIBLE"
code_name execution_mode_incompatible = "EXECUTION_MODE_INCOMPATIBLE"
code_name permission_denied = "PERMISSION_DENIED"

abbrev pub accepted_result : AgentCommand → Payload
accepted_result c = ("accepted", Json.bool true) ∷ ("commandType", str (command_type c)) ∷ []

abbrev pub rejected_result : AgentCommand → Failure → Payload
rejected_result c f =
    ("accepted", Json.bool false)
    ∷ ("commandType", str (command_type c))
    ∷ ("reason", str (message f))
    ∷ []

abbrev pub is_final : ReceiptStatus → Bool
is_final processing = false
is_final _ = true

abbrev pub reply_type : ReceiptStatus → AgentReportType
reply_type accepted = command_ack
reply_type _ = command_rejected

abbrev pub has_expired : Option ℕ → ℕ → Bool
has_expired none now = false
has_expired (some t) now = leb t now

module _ {W : Type 0} (h : Host W) (me : Identity) where
  unfoldable pub validate_envelope : Envelope → M W Unit
  validate_envelope e = do
    require (e.tenant_id == me.tenant_id && e.device_id == me.device_id)
        (error "Command identity does not match this Desktop agent")
    require (e.protocol_version == me.protocol_version)
        (error (text_concat "Unsupported command protocol " e.protocol_version))
    now ← ask h.now
    require (not (has_expired (h.parse_date e.expires_at) now)) (error "Command has expired")

  abbrev pub perform : AgentCommand → M W Unit
  perform (start_task c) = Start.start_task h c
  perform (control c) = control_task h c

  abbrev pub note_processing : AgentCommand → Option CommandReceiptRecord → M W Unit
  note_processing c none = save_receipt h c processing (("commandType", str (command_type c)) ∷ [])
  note_processing c (some prior) = pure tt

  -- The body of the `try`.
  unfoldable pub attempt : AgentCommand → Option CommandReceiptRecord → M W Unit
  attempt c prior = do
    validate_envelope (envelope_of c)
    note_processing c prior
    perform c
    save_receipt h c accepted (accepted_result c)
    send_report h me command_ack (envelope_of c) (accepted_result c)

  abbrev pub rejection : ArtifactReference → ArtifactRejectionCode → String → Payload
  rejection r code detail =
      ("artifactId", str r.artifact_id)
      ∷ ("artifactVersion", str r.version)
      ∷ ("code", str (code_name code))
      ∷ ("detail", str detail)
      ∷ []

  abbrev pub capability_of : AgentCommand → Option ArtifactReference
  capability_of (start_task c) = c.capability
  capability_of (control c) = none

  abbrev pub report_artifact : AgentCommand → Failure → Option ArtifactReference → M W Unit
  report_artifact c (artifact_rejected code detail) (some r) =
      send_report h me artifact_rejected_report (envelope_of c) (rejection r code detail)
  report_artifact c _ _ = pure tt

  -- The body of the `catch`.
  unfoldable pub reject_command : AgentCommand → Failure → M W Unit
  reject_command c f = do
    report_artifact c f (capability_of c)
    save_receipt h c rejected (rejected_result c f)
    send_report h me command_rejected (envelope_of c) (rejected_result c f)

  abbrev pub serve_first : AgentCommand → Option CommandReceiptRecord → M W Unit
  serve_first c prior = try_catch (attempt c prior) (reject_command c)

  abbrev pub reply_again : AgentCommand → CommandReceiptRecord → M W Unit
  reply_again c prior =
      send_report h me (reply_type prior.status) (envelope_of c)
        (with_entry "duplicate" (Json.bool true) prior.result)

  unfoldable pub process_with : AgentCommand → Option CommandReceiptRecord → M W Unit
  process_with c none = serve_first c none
  process_with c (some prior) =
      if is_final prior.status then reply_again c prior else serve_first c (some prior)

  unfoldable pub process_command : AgentCommand → M W Unit
  unfolding process_with
  process_command c = do
    prior ← gets (λ s. Database.get_command_receipt (envelope_of c).command_id s.database)
    process_with c prior

-- What passes through the queue: a command, an event or the end of the execution of a task.
pub data Operation : Type 0 where
  command : AgentCommand → Operation
  event : ℕ → StartTaskCommand → String → Payload → Operation
  finish : ℕ → ExecutionOutcome → Operation

module _ {W : Type 0} (h : Host W) (me : Identity) where
  unfoldable pub run_operation : Operation → M W Unit
  run_operation (command c) = process_command h me c
  run_operation (event serial c state payload) = emit_event h me serial c state payload
  run_operation (finish serial outcome) = finish_execution h me serial outcome

  -- `enqueue`: an operation starts when the one before it has returned or thrown. `between` is what
  -- the host does meanwhile.
  unfoldable pub run_queue : (W → W) → State W → List Operation → State W
  run_queue between s [] = s
  run_queue between s (op ∷ ops) =
      run_queue between (run_operation op (record s { world = between s.world })).1 ops
