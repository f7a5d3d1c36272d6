-- ===== src/Orchestrator/Quiet.antt =====
-- The steps that change neither the active task nor the control lease keep whatever is said of those.
use smart_form.Base.{ℕ, ◌+◌, String, Bool, true, false, Option, none, some, List, [], ◌∷◌, ◌==◌}
use smart_form.Base.Exec.{Exec, put_state}
use smart_form.Base.Exec.Preserves.{
  Preserves, Preserves-bind, preserves_rules, Preserves-if, Preserves-pure, Preserves-throw,
}
use smart_form.Contracts.Artifact.{Failure, ArtifactReference}
use smart_form.Contracts.Protocol.{StartTaskCommand, AgentReportType, Envelope, AgentCommand}
use smart_form.Lease.{AutomationExecutor, BrowserProbe, Authority, lower_host}
use smart_form.Database.{Tables, LocalTaskRecord, ReceiptStatus}
use smart_form.Contracts.Json.{Payload}
use smart_form.Orchestrator.Host.{Host, Identity, ActiveTask, State, ask}
use smart_form.Orchestrator.Records.{
  probe_browser, probe_with, save_checkpoint, checkpoint_of, touch_task, write_database,
  send_report, save_receipt,
}
use smart_form.Orchestrator.Start.{
  prepare, open_page, draw, start_execution, start_execution_of, hostname_matches, some_domain,
  load_artifact, idle, stored_date,
}

-- What `F` says of the active task and of the control lease.
pub record Holds (F : Option ActiveTask → Authority → Type 0) {W : Type 0} (s : State W)
    : Type 0 where
  pub fact : F s.active s.control

module _ {W : Type 0} (F : Option ActiveTask → Authority → Type 0) where
  pub ask-Holds : {A : Type 0} (m : Exec Failure W A) → Preserves (Holds F) (ask m)
  ask-Holds m = record { at = λ s v. record { fact = v.fact } }

  module _ (h : Host W) where
    pub write_database-Holds : (f : Tables → Tables) → Preserves (Holds F) (write_database h f)
    write_database-Holds f = record { at = λ s v. record { fact = v.fact } }

    pub probe_with-Holds :
        (probe : Option (Exec Failure W BrowserProbe)) → Preserves (Holds F) (probe_with h probe)
    unfolding probe_with
    probe_with-Holds none = search (preserves_rules, ask-Holds)
    probe_with-Holds (some probe) = ask-Holds probe

    pub probe-Holds : Preserves (Holds F) (probe_browser h)
    unfolding probe_browser
    probe-Holds = probe_with-Holds h.custom_probe

    pub touch_task-Holds :
        (state : String) (task : Option LocalTaskRecord)
        → Preserves (Holds F) (touch_task h state task)
    unfolding touch_task
    touch_task-Holds state none = Preserves-pure tt
    touch_task-Holds state (some task) = search (preserves_rules, ask-Holds, write_database-Holds)

    pub checkpoint_of-Holds :
        (state : String) (browser : BrowserProbe) (active : Option ActiveTask)
        → Preserves (Holds F) (checkpoint_of h state browser active)
    unfolding checkpoint_of
    checkpoint_of-Holds state browser none = Preserves-pure tt
    checkpoint_of-Holds state browser (some a) =
        search (preserves_rules, ask-Holds, write_database-Holds, touch_task-Holds) depth 12

    pub save_checkpoint-Holds :
        (state : String) (browser : BrowserProbe)
        → Preserves (Holds F) (save_checkpoint h state browser)
    unfolding save_checkpoint
    save_checkpoint-Holds state browser = search (preserves_rules, checkpoint_of-Holds)

    pub next_report-Holds :
        Preserves {E = Failure}
          (Holds F {W = W})
          (put_state (λ s. record s { report_sequence = s.report_sequence + 1 }))
    next_report-Holds = record { at = λ s v. record { fact = v.fact } }

    pub send_report-Holds :
        (me : Identity) (t : AgentReportType) (e : Envelope) (p : Payload)
        → Preserves (Holds F) (send_report h me t e p)
    unfolding send_report
    send_report-Holds me t e p = search (preserves_rules, ask-Holds, next_report-Holds) depth 14

    pub save_receipt-Holds :
        (c : AgentCommand) (status : ReceiptStatus) (result : Payload)
        → Preserves (Holds F) (save_receipt h c status result)
    unfolding save_receipt
    save_receipt-Holds c status result = search (preserves_rules, ask-Holds, write_database-Holds)

    pub start_execution_of-Holds :
        (resume : Bool) (active : Option ActiveTask)
        → Preserves (Holds F) (start_execution_of h resume active)
    unfolding start_execution_of
    start_execution_of-Holds resume none = Preserves-pure tt
    start_execution_of-Holds resume (some a) = record { at = λ s v. record { fact = v.fact } }

    pub start_execution-Holds : (resume : Bool) → Preserves (Holds F) (start_execution h resume)
    unfolding start_execution
    start_execution-Holds resume = search (preserves_rules, start_execution_of-Holds)

    pub lower_host-Holds :
        (host : Option String) → Preserves (Holds F {W = W}) (lower_host h.urls host)
    lower_host-Holds none = Preserves-throw _
    lower_host-Holds (some host) = Preserves-pure _

    pub some_domain-Holds :
        (host : String) (allowed : List String)
        → Preserves (Holds F {W = W}) (some_domain h.urls host allowed)
    unfolding some_domain
    some_domain-Holds host [] = Preserves-pure false
    some_domain-Holds host (d ∷ ds) =
        Preserves-bind _ _ (lower_host-Holds _)
          λ c. Preserves-if (c == host) _ _ (Preserves-pure true) (some_domain-Holds host ds)

    pub hostname_matches-Holds :
        (url : String) (allowed : List String)
        → Preserves (Holds F {W = W}) (hostname_matches h.urls url allowed)
    unfolding hostname_matches
    hostname_matches-Holds url allowed =
        search (preserves_rules, lower_host-Holds, some_domain-Holds)

    pub draw-Holds : Preserves (Holds F) (draw h)
    unfolding draw
    draw-Holds = search (preserves_rules, ask-Holds)

    pub load_artifact-Holds :
        (r : Option ArtifactReference) → Preserves (Holds F) (load_artifact h r)
    load_artifact-Holds none = Preserves-pure none
    load_artifact-Holds (some r) = search (preserves_rules, ask-Holds)

    pub idle-Holds : (active : Option ActiveTask) → Preserves (Holds F) (idle h active)
    idle-Holds none = Preserves-pure tt
    idle-Holds (some a) = Preserves-throw _

    pub stored_date-Holds : (date : Option ℕ) → Preserves (Holds F) (stored_date h date)
    stored_date-Holds none = Preserves-throw _
    stored_date-Holds (some t) = Preserves-pure t

    pub prepare-Holds : (c : StartTaskCommand) → Preserves (Holds F) (prepare h c)
    unfolding prepare
    prepare-Holds c =
        search (preserves_rules, hostname_matches-Holds, load_artifact-Holds, idle-Holds) depth 14

    pub open_page-Holds :
        (c : StartTaskCommand) (executor : AutomationExecutor)
        → Preserves (Holds F) (open_page h c executor)
    unfolding open_page
    open_page-Holds c executor =
        search
          (
            preserves_rules, ask-Holds, hostname_matches-Holds, write_database-Holds, probe-Holds,
            stored_date-Holds,
          )
          depth 16
