-- ===== src/Orchestrator/Queue.antt =====
-- The queue of operations keeps the browser with one owner, whatever comes and whatever fails.
use smart_form.Base.{Option, none, some, List, [], ◌∷◌, ◌&&◌, ◌==◌, not, text_concat}
use smart_form.Base.Exec.Preserves.{
  Preserves, Preserves-bind, Preserves-pure, Preserves-gets, Preserves-require, Preserves-if,
  Preserves-try_catch,
}
use smart_form.Contracts.Artifact.{Failure, ArtifactReference, error, artifact_rejected}
use smart_form.Contracts.Protocol.{
  AgentCommand, start_task, control, Envelope, envelope_of, command_ack, command_rejected,
  artifact_rejected_report,
}
use smart_form.Database.{CommandReceiptRecord, accepted, rejected, processing}
use smart_form.Orchestrator.Host.{Host, Identity, State}
use smart_form.Orchestrator.Quiet.{ask-Holds, send_report-Holds, save_receipt-Holds}
use smart_form.Orchestrator.Ownership.{OwnsBrowser, IsOwned}
use smart_form.Orchestrator.Safety.{
  start_task-IsOwned, control_task-IsOwned, emit_event-IsOwned, finish_execution-IsOwned,
}
use smart_form.Orchestrator.Process.{
  validate_envelope, perform, note_processing, has_expired, attempt, reject_command,
  report_artifact, capability_of, serve_first, process_with, process_command, is_final, Operation,
  command, event, finish, run_operation, run_queue,
}

module _ {W : Type 0} (h : Host W) (me : Identity) where
  validate-IsOwned : (e : Envelope) → Preserves (IsOwned {W = W}) (validate_envelope h me e)
  unfolding validate_envelope
  validate-IsOwned e =
      Preserves-bind _ _
        (Preserves-require (e.tenant_id == me.tenant_id && e.device_id == me.device_id)
          (error "Command identity does not match this Desktop agent"))
        λ _.
          Preserves-bind _ _
            (Preserves-require (e.protocol_version == me.protocol_version)
              (error (text_concat "Unsupported command protocol " e.protocol_version)))
            λ _. Preserves-bind _ _ (ask-Holds OwnsBrowser h.now) λ now.
              Preserves-require (not (has_expired (h.parse_date e.expires_at) now))
                (error "Command has expired")

  note_processing-IsOwned :
      (c : AgentCommand) (prior : Option CommandReceiptRecord)
      → Preserves (IsOwned {W = W}) (note_processing h me c prior)
  note_processing-IsOwned c none = save_receipt-Holds OwnsBrowser h c processing _
  note_processing-IsOwned c (some prior) = Preserves-pure tt

  perform-IsOwned : (c : AgentCommand) → Preserves (IsOwned {W = W}) (perform h me c)
  perform-IsOwned (start_task c) = start_task-IsOwned h c
  perform-IsOwned (control c) = control_task-IsOwned h c

  attempt-IsOwned :
      (c : AgentCommand) (prior : Option CommandReceiptRecord)
      → Preserves (IsOwned {W = W}) (attempt h me c prior)
  unfolding attempt
  attempt-IsOwned c prior = Preserves-bind _ _ (validate-IsOwned (envelope_of c)) λ _.
      Preserves-bind _ _ (note_processing-IsOwned c prior) λ _.
        Preserves-bind _ _ (perform-IsOwned c) λ _.
          Preserves-bind _ _ (save_receipt-Holds OwnsBrowser h c accepted _)
            λ _. send_report-Holds OwnsBrowser h me command_ack _ _

  report_artifact-IsOwned :
      (c : AgentCommand) (f : Failure) (r : Option ArtifactReference)
      → Preserves (IsOwned {W = W}) (report_artifact h me c f r)
  report_artifact-IsOwned c (artifact_rejected code detail) (some r) =
      send_report-Holds OwnsBrowser h me artifact_rejected_report _ _
  report_artifact-IsOwned c (error text) r = Preserves-pure tt
  report_artifact-IsOwned c (artifact_rejected code detail) none = Preserves-pure tt

  reject_command-IsOwned :
      (c : AgentCommand) (f : Failure) → Preserves (IsOwned {W = W}) (reject_command h me c f)
  unfolding reject_command
  reject_command-IsOwned c f =
      Preserves-bind _ _ (report_artifact-IsOwned c f (capability_of h me c)) λ _.
        Preserves-bind _ _ (save_receipt-Holds OwnsBrowser h c rejected _)
          λ _. send_report-Holds OwnsBrowser h me command_rejected _ _

  serve_first-IsOwned :
      (c : AgentCommand) (prior : Option CommandReceiptRecord)
      → Preserves (IsOwned {W = W}) (serve_first h me c prior)
  serve_first-IsOwned c prior =
      Preserves-try_catch _ _ (attempt-IsOwned c prior) (reject_command-IsOwned c)

  process_with-IsOwned :
      (c : AgentCommand) (prior : Option CommandReceiptRecord)
      → Preserves (IsOwned {W = W}) (process_with h me c prior)
  unfolding process_with
  process_with-IsOwned c none = serve_first-IsOwned c none
  process_with-IsOwned c (some prior) =
      Preserves-if (is_final prior.status) _ _
        (send_report-Holds OwnsBrowser h me _ (envelope_of c) _)
        (serve_first-IsOwned c (some prior))

  process_command-IsOwned :
      (c : AgentCommand) → Preserves (IsOwned {W = W}) (process_command h me c)
  unfolding process_command
  process_command-IsOwned c = Preserves-bind _ _ (Preserves-gets _) (process_with-IsOwned c)

  run_operation-IsOwned : (op : Operation) → Preserves (IsOwned {W = W}) (run_operation h me op)
  unfolding run_operation
  run_operation-IsOwned (command c) = process_command-IsOwned c
  run_operation-IsOwned (event serial c state payload) =
      emit_event-IsOwned h me serial c state payload
  run_operation-IsOwned (finish serial outcome) = finish_execution-IsOwned h me serial outcome

  -- From an owned state, one where nobody but the active task has the browser, every sequence of commands, events
  -- and ends of executions leads to an owned state, whatever the host answers and whatever throws: the
  -- lease held is the active task's, its holder is that task's executor or a human, and the executor
  -- of a write task is the runner.
  pub run_queue-IsOwned :
      (between : W → W) (ops : List Operation) (s : State W)
      → IsOwned s
      → IsOwned (run_queue h me between s ops)
  unfolding run_queue
  run_queue-IsOwned between [] s v = v
  run_queue-IsOwned between (op ∷ ops) s v =
      run_queue-IsOwned between ops (run_operation h me op (record s { world = between s.world })).1
        ((run_operation-IsOwned op).at _ (record { fact = v.fact }))
