-- ===== src/Orchestrator/Execution.antt =====
-- apps/desktop/src/agent/task-orchestrator.ts: how a task is handed over, controlled and ended.
use smart_form.Base.{
  ℕ, String, Bool, true, false, ◌&&◌, Option, none, some, [], ◌∷◌, ◌==◌, if◌then◌else◌, nat_eq,
  text_concat, truthy,
}
use smart_form.Base.Exec.{pure, throw, gets, put_state, ◌>>=◌, ◌>>◌, require, zoom}
use smart_form.Contracts.Json.{str, Payload, spread}
use smart_form.Contracts.Artifact.{error}
use smart_form.Contracts.Protocol.{
  StartTaskCommand, AgentControlCommand, ControlType, pause_task, request_takeover,
  resume_after_human, cancel_task, approve_submit, reject_submit, AgentReportType,
}
use smart_form.Lease.{ControlLease, BrowserProbe, is_human}
use smart_form.Lease
use smart_form.Orchestrator.Host.{Host, Identity, ActiveTask, M, ask, control_part}
use smart_form.Orchestrator.Records.{probe_browser, save_checkpoint, send_report}
use smart_form.Orchestrator.Start.{current_active, update_active, draw, start_execution}

pub data OutcomeStatus : Type 0 where
  succeeded waiting_human failed : OutcomeStatus

pub record ExecutionOutcome : Type 0 where
  pub status : OutcomeStatus
  pub payload : Payload
  pub error : Option String

module _ {W : Type 0} (h : Host W) where
  -- The lease goes to the human, and the probe taken before it is kept for the resumption.
  unfoldable pub give_lease : ActiveTask → BrowserProbe → M W Unit
  give_lease a expected = do
    lease ← Lease.transfer_to_human control_part a.lease.token (ask (h.drain a.executor)) (draw h)
    update_active h (λ x. record x { lease = lease })
    update_active h (λ x. record x { expected_human_probe = some expected })

  unfoldable pub hand_over : ActiveTask → M W BrowserProbe
  hand_over a = do
    expected ← probe_browser h
    give_lease a expected
    ask h.bring_to_front
    save_checkpoint h "WAITING_HUMAN" expected
    pure expected

  abbrev release_current : ControlLease → Option ControlLease → M W Unit
  release_current mine none = pure tt
  release_current mine (some current) =
      if current.token == mine.token
      then zoom control_part (Lease.release current.token)
      else pure tt

  unfoldable pub release_lease_of : Option ActiveTask → M W Unit
  release_lease_of none = pure tt
  release_lease_of (some a) = do
    current ← gets (λ s. s.control.lease)
    release_current a.lease current

  unfoldable pub release_active_lease : M W Unit
  unfolding release_lease_of
  release_active_lease = do active ← current_active h; release_lease_of active

  abbrev pub clear_active : M W Unit
  clear_active = put_state (λ s. record s { active = none })

  abbrev pub expected_probe : ActiveTask → Option BrowserProbe → M W BrowserProbe
  expected_probe a none = throw (error "Task is not waiting for human control")
  expected_probe a (some expected) = do
    require (is_human a.lease.holder) (error "Task is not waiting for human control")
    pure expected

  -- The lease that a resumption gives is the active task's.
  unfoldable pub take_back_stamped :
      ActiveTask → BrowserProbe → BrowserProbe → String × ℕ → M W Unit
  take_back_stamped a expected actual stamp = do
    lease ← zoom control_part (
        Lease.resume_after_human h.urls a.lease.token a.executor expected actual
          a.command.task.site.allowed_domains stamp.0 stamp.1)
    update_active h (λ x. record x { lease = lease })
    update_active h (λ x. record x { expected_human_probe = none })

  unfoldable pub take_back : ActiveTask → BrowserProbe → BrowserProbe → M W Unit
  take_back a expected actual = do stamp ← draw h; take_back_stamped a expected actual stamp

  abbrev pub submission : Bool → String → Option String → M W String
  submission able refusal none = throw (error refusal)
  submission able refusal (some id) = do require (able && truthy (some id)) (error refusal); pure id

  -- The `switch` of `controlTask`.
  unfoldable pub control_active : ActiveTask → AgentControlCommand → ControlType → M W Unit
  control_active a c pause_task = do
    ask (h.pause a.executor)
    ask h.stop_frames
    probe ← probe_browser h
    save_checkpoint h "PAUSED" probe
  control_active a c request_takeover = do ask (h.pause a.executor); hand_over a; pure tt
  control_active a c resume_after_human = do
    expected ← expected_probe a a.expected_human_probe
    actual ← probe_browser h
    take_back a expected actual
    save_checkpoint h "RUNNING" actual
    ask (h.start_frames c.envelope.task_id)
    start_execution h true
  control_active a c cancel_task = do
    ask (h.cancel a.executor)
    ask h.stop_frames
    release_active_lease
    probe ← probe_browser h
    save_checkpoint h "CANCELLED" probe
    clear_active
  control_active a c approve_submit = do
    id ←
        submission (h.can_approve a.executor) "Executor cannot approve this submission"
          c.submission_id
    ask (h.approve a.executor id)
  control_active a c reject_submit = do
    id ←
        submission (h.can_reject a.executor) "Executor cannot reject this submission"
          c.submission_id
    ask (h.reject a.executor id)

  abbrev pub not_active : {A : Type 0} → AgentControlCommand → M W A
  not_active c =
      throw (error (text_concat "Task is not active on this Desktop: " c.envelope.task_id))

  abbrev pub active_for : AgentControlCommand → Option ActiveTask → M W ActiveTask
  active_for c none = not_active c
  active_for c (some a) =
      if a.command.envelope.task_id == c.envelope.task_id then pure a else not_active c

  unfoldable pub control_task : AgentControlCommand → M W Unit
  control_task c = do
    active ← current_active h
    a ← active_for c active
    control_active a c c.control_type

  abbrev pub is_task : ℕ → Option ActiveTask → Bool
  is_task serial none = false
  is_task serial (some a) = nat_eq a.serial serial

  -- `emitEvent`, for the execution that was started for the task `serial`.
  unfoldable pub emit_event : Identity → ℕ → StartTaskCommand → String → Payload → M W Unit
  emit_event me serial command state payload = do
    active ← current_active h
    require (is_task serial active) (error "Executor event belongs to a stale task")
    probe ← probe_browser h
    save_checkpoint h state probe
    send_report h me AgentReportType.task_event command.envelope
        (spread (("state", str state) ∷ []) payload)

  abbrev final_state : OutcomeStatus → String
  final_state succeeded = "SUCCEEDED"
  final_state _ = "FAILED"

  abbrev error_entry : Option String → Payload
  error_entry none = []
  error_entry (some e) = if truthy (some e) then ("error", str e) ∷ [] else []

  unfoldable pub finish_active : Identity → ActiveTask → OutcomeStatus → ExecutionOutcome → M W Unit
  finish_active me a waiting_human outcome = do
    hand_over a
    send_report h me AgentReportType.task_event a.command.envelope
        (spread (("state", str "WAITING_HUMAN") ∷ []) outcome.payload)
  finish_active me a status outcome = do
    ask h.stop_frames
    release_active_lease
    probe ← probe_browser h
    save_checkpoint h (final_state status) probe
    send_report h me AgentReportType.task_event a.command.envelope (
        spread (spread (("state", str (final_state status)) ∷ []) outcome.payload)
          (error_entry outcome.error))
    clear_active

  abbrev pub finish_of : Identity → ℕ → ExecutionOutcome → Option ActiveTask → M W Unit
  finish_of me serial outcome none = pure tt
  finish_of me serial outcome (some a) =
      if nat_eq a.serial serial then finish_active me a outcome.status outcome else pure tt

  unfoldable pub finish_execution : Identity → ℕ → ExecutionOutcome → M W Unit
  finish_execution me serial outcome = do
    active ← current_active h
    finish_of me serial outcome active
