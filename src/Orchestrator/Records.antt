-- ===== src/Orchestrator/Records.antt =====
-- apps/desktop/src/agent/task-orchestrator.ts: the probe of the browser, and what is written to the
-- local database and sent to the server.
use smart_form.Base.{ℕ, ◌+◌, String, Option, none, some, [], ◌∷◌}
use smart_form.Base.Exec.{Exec, pure, gets, put_state, ◌>>=◌, ◌>>◌}
use smart_form.Contracts.Json.{Json, str, Payload}
use smart_form.Contracts.Artifact.{Failure}
use smart_form.Contracts.Protocol.{AgentCommand, AgentReportType, Envelope, envelope_of}
use smart_form.Lease.{BrowserProbe, holder_name, automation}
use smart_form.Database.{
  Tables, LocalTaskRecord, TaskCheckpointRecord, ReceiptStatus, CommandReceiptRecord,
}
use smart_form.Database
use smart_form.Orchestrator.Host.{Host, Identity, ActiveTask, M, ask}

abbrev pub receipt_of : AgentCommand → ReceiptStatus → Payload → ℕ → CommandReceiptRecord
receipt_of command status result now = record {
  command_id = (envelope_of command).command_id;
  task_id = (envelope_of command).task_id;
  status = status;
  result = result;
  updated_at = now;
}

module _ {W : Type 0} (h : Host W) where
  -- The probe that the options give, or the page's own.
  unfoldable pub probe_with : Option (Exec Failure W BrowserProbe) → M W BrowserProbe
  probe_with (some probe) = ask probe
  probe_with none = do
    url ← gets (λ s. h.page_url s.world)
    title ← ask h.page_title
    pure (record {
      url = url;
      title = some title;
      fingerprint = none;
      active_target_id = some "desktop-task-page";
    })

  unfoldable pub probe_browser : M W BrowserProbe
  unfolding probe_with
  probe_browser = probe_with h.custom_probe

  abbrev pub write_database : (Tables → Tables) → M W Unit
  write_database f = do put_state (λ s. record s { database = f s.database }); ask h.persist

  abbrev next_sequence : Option TaskCheckpointRecord → ℕ
  next_sequence none = 1
  next_sequence (some c) = c.sequence + 1

  -- `if (task) await saveTask({ ...task, status, stateVersion + 1 })`.
  unfoldable pub touch_task : String → Option LocalTaskRecord → M W Unit
  touch_task state none = pure tt
  touch_task state (some task) = do
    now ← ask h.now
    write_database (
        Database.save_task (record task {
          status = state;
          state_version = task.state_version + 1;
          updated_at = now;
        }))

  unfoldable pub checkpoint_of : String → BrowserProbe → Option ActiveTask → M W Unit
  unfolding touch_task
  checkpoint_of state browser none = pure tt
  checkpoint_of state browser (some active) = do
    let task_id = active.command.envelope.task_id
    previous ← gets (λ s. Database.get_checkpoint task_id s.database)
    now ← ask h.now
    write_database (
        Database.save_checkpoint (record {
          task_id = task_id;
          state = state;
          context =
              ("executor", str (holder_name (automation active.executor)))
              ∷ ("leaseEpoch", Json.num (h.number_text active.lease.epoch))
              ∷ [];
          browser = browser;
          sequence = next_sequence previous;
          updated_at = now;
        }))
    task ← gets (λ s. Database.get_task task_id s.database)
    touch_task state task

  unfoldable pub save_checkpoint : String → BrowserProbe → M W Unit
  unfolding checkpoint_of
  save_checkpoint state browser = do
    active ← gets (λ s. s.active)
    checkpoint_of state browser active

  unfoldable pub save_receipt : AgentCommand → ReceiptStatus → Payload → M W Unit
  save_receipt command status result = do
    now ← ask h.now
    write_database (Database.save_command_receipt (receipt_of command status result now))

  unfoldable pub send_report : Identity → AgentReportType → Envelope → Payload → M W Unit
  send_report me report_type envelope payload = do
    put_state (λ s. record s { report_sequence = s.report_sequence + 1 })
    sequence ← gets (λ s. s.report_sequence)
    report_id ← ask h.uuid
    now ← ask h.now
    ask (
        h.send_report (record {
          protocol_version = me.protocol_version;
          report_id = report_id;
          report_type = report_type;
          tenant_id = me.tenant_id;
          device_id = me.device_id;
          task_id = some envelope.task_id;
          command_id = some envelope.command_id;
          sequence = sequence;
          timestamp = now;
          payload = payload;
        }))
