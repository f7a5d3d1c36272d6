-- ===== src/Orchestrator/Safety.antt =====
-- Every operation of the queue keeps the browser with one owner.
use smart_form.Base.{
  ℕ, String, ◌≡◌, refl, inl, inr, Bool, true, false, not, ◌&&◌, Option, none, some, List, arith,
  is_some, ◌==◌, Bool-cases, nat_eq, ◌==◌,
}
use smart_form.Base.Exec.{◌>>=◌, ◌>>◌, require}
use smart_form.Base.Exec.Preserves.{
  Preserves, Leads, Leads-bind, Leads-Preserves, Leads-weaken, Preserves-bind, Preserves-bind_known,
  Yields, Yields-bind, Yields-bind_known, Yields-pure, Yields-require, preserves_rules,
  Preserves-if, Preserves-pure, Preserves-throw, Preserves-gets, Preserves-require,
}
use smart_form.Contracts.Artifact.{error, ArtifactReference}
use smart_form.Contracts.Task.{is_write}
use smart_form.Contracts.Protocol.{
  StartTaskCommand, AgentControlCommand, ControlType, pause_task, request_takeover,
  resume_after_human, cancel_task, approve_submit, reject_submit, AgentReportType, Envelope,
}
use smart_form.Lease.{BrowserProbe}
use smart_form.Contracts.Json.{Payload}
use smart_form.Orchestrator.Ownership.{
  OwnsBrowser, IsOwned, OwnsAs, OwnsAs-IsOwned, LetGo, LetGo-IsOwned, release-LetGo, clear-IsOwned,
  take_back-IsOwned, hand_over-IsOwned, take_control-IsOwned,
}
use smart_form.Orchestrator.Quiet.{
  Holds, ask-Holds, probe-Holds, save_checkpoint-Holds, send_report-Holds, start_execution-Holds,
  prepare-Holds, open_page-Holds,
}
use smart_form.Orchestrator.Host.{Host, Identity, ActiveTask, State, M, ask}
use smart_form.Orchestrator.Records.{probe_browser, save_checkpoint, send_report}
use smart_form.Orchestrator.Start.{
  executor_for, prepare, start_task, start_execution, hostname_matches, load_artifact,
  current_active, no_executor, idle,
}
use smart_form.Orchestrator.Execution.{
  release_active_lease, clear_active, ExecutionOutcome, OutcomeStatus, succeeded, waiting_human,
  failed, control_active, control_task, emit_event, finish_active, finish_execution, submission,
  expected_probe, is_task, active_for, finish_of,
}

module _ {W : Type 0} (h : Host W) where
  -- From where the lease is given back to where the task is cleared.
  ends-IsOwned :
      (f : BrowserProbe → M W Unit)
      → ((p : BrowserProbe) → Leads (Holds LetGo) IsOwned (f p))
      → Preserves IsOwned (release_active_lease h >> (probe_browser h >>= f))
  ends-IsOwned f leads = record {
    at =
        (Leads-bind _ _ LetGo-IsOwned (release-LetGo h)
          λ _. Leads-bind _ _ LetGo-IsOwned (Leads-Preserves (probe-Holds LetGo h)) leads).at;
  }

  save_clear-IsOwned :
      (state : String) (p : BrowserProbe)
      → Leads (Holds LetGo) IsOwned (save_checkpoint h state p >> clear_active h)
  save_clear-IsOwned state p =
      Leads-bind _ _ LetGo-IsOwned (Leads-Preserves (save_checkpoint-Holds LetGo h state p))
        λ _. clear-IsOwned h

  report_clear-IsOwned :
      (me : Identity) (state : String) (e : Envelope) (payload : Payload) (p : BrowserProbe)
      → Leads (Holds LetGo) IsOwned (
          save_checkpoint h state p
          >> (send_report h me AgentReportType.task_event e payload >> clear_active h))
  report_clear-IsOwned me state e payload p =
      Leads-bind _ _ LetGo-IsOwned (Leads-Preserves (save_checkpoint-Holds LetGo h state p)) λ _.
        Leads-bind _ _ LetGo-IsOwned
          (Leads-Preserves (send_report-Holds LetGo h me AgentReportType.task_event e payload))
          λ _. clear-IsOwned h

  submission-IsOwned :
      (able : Bool) (refusal : String) (id : Option String)
      → Preserves (IsOwned {W = W}) (submission h able refusal id)
  submission-IsOwned able refusal none = Preserves-throw _
  submission-IsOwned able refusal (some id) = search preserves_rules

  expected_probe-OwnsAs :
      (a b : ActiveTask) (probe : Option BrowserProbe)
      → Preserves {S = State W} (Holds (OwnsAs a)) (expected_probe h b probe)
  expected_probe-OwnsAs a b none = Preserves-throw _
  expected_probe-OwnsAs a b (some probe) = search preserves_rules

  run-IsOwned :
      (state : String) (p : BrowserProbe) (task_id : String) (resume : Bool)
      → Preserves IsOwned
          (save_checkpoint h state p >> (ask (h.start_frames task_id) >> start_execution h resume))
  run-IsOwned state p task_id resume =
      Preserves-bind _ _ (save_checkpoint-Holds OwnsBrowser h state p) λ _.
        Preserves-bind _ _ (ask-Holds OwnsBrowser (h.start_frames task_id))
          λ _. start_execution-Holds OwnsBrowser h resume

  control_active-IsOwned :
      (a : ActiveTask) (c : AgentControlCommand) (t : ControlType)
      → Leads (Holds (OwnsAs a)) IsOwned (control_active h a c t)
  unfolding control_active
  control_active-IsOwned a c pause_task = Leads-weaken (OwnsAs-IsOwned a) (
      Preserves-bind _ _ (ask-Holds OwnsBrowser (h.pause a.executor)) λ _.
        Preserves-bind _ _ (ask-Holds OwnsBrowser h.stop_frames) λ _.
          Preserves-bind _ _ (probe-Holds OwnsBrowser h)
            λ p. save_checkpoint-Holds OwnsBrowser h "PAUSED" p)
  control_active-IsOwned a c request_takeover = Leads-weaken (OwnsAs-IsOwned a) (
      Preserves-bind _ _ (ask-Holds OwnsBrowser (h.pause a.executor))
        λ _. Preserves-bind _ _ (hand_over-IsOwned h a) λ _. Preserves-pure tt)
  control_active-IsOwned a c resume_after_human =
      Leads-bind _ _ (OwnsAs-IsOwned a)
        (Leads-Preserves (expected_probe-OwnsAs a a a.expected_human_probe))
        λ expected.
          Leads-bind _ _ (OwnsAs-IsOwned a) (Leads-Preserves (probe-Holds (OwnsAs a) h)) λ actual.
            Leads-bind _ _ (λ s v. v) (take_back-IsOwned h a expected actual)
              λ _. Leads-Preserves (run-IsOwned "RUNNING" actual c.envelope.task_id true)
  control_active-IsOwned a c cancel_task = Leads-weaken (OwnsAs-IsOwned a) (
      Preserves-bind _ _ (ask-Holds OwnsBrowser (h.cancel a.executor)) λ _.
        Preserves-bind _ _ (ask-Holds OwnsBrowser h.stop_frames)
          λ _. ends-IsOwned _ (save_clear-IsOwned "CANCELLED"))
  control_active-IsOwned a c approve_submit = Leads-weaken (OwnsAs-IsOwned a) (
      Preserves-bind _ _ (submission-IsOwned _ _ c.submission_id)
        λ id. ask-Holds OwnsBrowser (h.approve a.executor id))
  control_active-IsOwned a c reject_submit = Leads-weaken (OwnsAs-IsOwned a) (
      Preserves-bind _ _ (submission-IsOwned _ _ c.submission_id)
        λ id. ask-Holds OwnsBrowser (h.reject a.executor id))

  control_of :
      (c : AgentControlCommand) (active : Option ActiveTask) (s : State W)
      → s.active ≡ active
      → IsOwned s
      → IsOwned ((active_for h c active >>= λ a. control_active h a c c.control_type) s).1
  control_of c none s e v = v
  control_of c (some a) s e v =
      elim (Bool-cases (a.command.envelope.task_id == c.envelope.task_id)) [
        | inl same ↦
            rw same
              ((control_active-IsOwned a c c.control_type).at s (record { fact = (v.fact, e) }))
        | inr other ↦ rw other v
      ]

  pub control_task-IsOwned : (c : AgentControlCommand) → Preserves IsOwned (control_task h c)
  unfolding control_task
  control_task-IsOwned c = record { at = λ s v. control_of c s.active s refl v }

  load_artifact-fit :
      (r : Option ArtifactReference)
      → is_some r ≡ true
      → Yields (λ artifact. is_some artifact ≡ true) (load_artifact h r)
  load_artifact-fit none some_r = absurd (ground arith)
  load_artifact-fit (some r) some_r = Yields-bind _ _ λ artifact. Yields-pure (some artifact) refl

  abbrev Fits : StartTaskCommand → Option (List ℕ) → Type 0
  Fits c artifact = is_write c.task.mode ≡ true → is_some artifact ≡ true

  capability_present :
      (c : StartTaskCommand)
      → not (is_write c.task.mode && not (is_some c.capability)) ≡ true
      → is_write c.task.mode ≡ true
      → is_some c.capability ≡ true
  capability_present c guard write = ground arith

  load-Fits :
      (c : StartTaskCommand)
      → not (is_write c.task.mode && not (is_some c.capability)) ≡ true
      → Yields (Fits c) (load_artifact h c.capability)
  load-Fits c guard = record {
    at = λ s artifact e write.
        (load_artifact-fit c.capability (capability_present c guard write)).at s artifact e;
  }

  -- A write task has an artifact when `prepare` lets it pass.
  prepare-Fits : (c : StartTaskCommand) → Yields (Fits c) (prepare h c)
  unfolding prepare
  prepare-Fits c = Yields-bind (current_active h) _ λ active. Yields-bind (idle h active) _ λ _.
      Yields-bind (hostname_matches h.urls c.task.site.entry_url c.task.site.allowed_domains) _
        λ inside.
          Yields-bind (require inside (error "Task entry URL is outside its allowed domains")) _
            λ _.
              Yields-bind_known _
                (require (not (is_write c.task.mode && not (is_some c.capability))) (
                  error
                    "Write tasks require a validated capability; Sidecar cannot perform writes"))
                _ (Yields-require _ _)
                λ _ guard.
                  Yields-bind_known (Fits c) (load_artifact h c.capability) _ (load-Fits c guard)
                    λ artifact fit.
                      Yields-bind
                        (require (h.has_executor (executor_for artifact))
                          (no_executor h (executor_for artifact)))
                        _ λ _. Yields-pure artifact fit

  pub start_task-IsOwned : (c : StartTaskCommand) → Preserves IsOwned (start_task h c)
  unfolding start_task
  start_task-IsOwned c =
      Preserves-bind_known (Fits c) _ _ (prepare-Holds OwnsBrowser h c) (prepare-Fits c)
        λ artifact fit. Preserves-bind _ _ (open_page-Holds OwnsBrowser h c _) λ probe.
          Preserves-bind _ _ (take_control-IsOwned h c artifact fit)
            λ _. run-IsOwned "RUNNING" probe c.envelope.task_id false

  pub emit_event-IsOwned :
      (me : Identity) (serial : ℕ) (c : StartTaskCommand) (state : String) (payload : Payload)
      → Preserves IsOwned (emit_event h me serial c state payload)
  unfolding emit_event
  emit_event-IsOwned me serial c state payload =
      Preserves-bind (current_active h) _ (Preserves-gets (λ s. s.active)) λ active.
        Preserves-bind _ _ (Preserves-require (is_task h serial active) _) λ _.
          Preserves-bind _ _ (probe-Holds OwnsBrowser h) λ p.
            Preserves-bind _ _ (save_checkpoint-Holds OwnsBrowser h state p)
              λ _. send_report-Holds OwnsBrowser h me _ _ _

  ended-IsOwned :
      (me : Identity) (state : String) (e : Envelope) (payload : Payload)
      → Preserves IsOwned (
          ask h.stop_frames
          >> (release_active_lease h
              >> (probe_browser h >>= λ p.
                  save_checkpoint h state p
                  >> (send_report h me AgentReportType.task_event e payload >> clear_active h))))
  ended-IsOwned me state e payload =
      Preserves-bind _ _ (ask-Holds OwnsBrowser h.stop_frames)
        λ _. ends-IsOwned _ (report_clear-IsOwned me state e payload)

  finish_active-IsOwned :
      (me : Identity) (a : ActiveTask) (status : OutcomeStatus) (outcome : ExecutionOutcome)
      → Preserves IsOwned (finish_active h me a status outcome)
  unfolding finish_active
  finish_active-IsOwned me a waiting_human outcome =
      Preserves-bind _ _ (hand_over-IsOwned h a) λ _. send_report-Holds OwnsBrowser h me _ _ _
  finish_active-IsOwned me a succeeded outcome = ended-IsOwned me _ _ _
  finish_active-IsOwned me a failed outcome = ended-IsOwned me _ _ _

  finish_of-IsOwned :
      (me : Identity) (serial : ℕ) (outcome : ExecutionOutcome) (active : Option ActiveTask)
      → Preserves IsOwned (finish_of h me serial outcome active)
  finish_of-IsOwned me serial outcome none = Preserves-pure tt
  finish_of-IsOwned me serial outcome (some a) =
      Preserves-if (nat_eq a.serial serial) _ _ (finish_active-IsOwned me a outcome.status outcome)
        (Preserves-pure tt)

  pub finish_execution-IsOwned :
      (me : Identity) (serial : ℕ) (outcome : ExecutionOutcome)
      → Preserves IsOwned (finish_execution h me serial outcome)
  unfolding finish_execution
  finish_execution-IsOwned me serial outcome =
      Preserves-bind _ _ (Preserves-gets _) (finish_of-IsOwned me serial outcome)
