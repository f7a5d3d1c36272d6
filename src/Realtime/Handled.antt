-- ===== src/Realtime/Handled.antt =====
-- What every event keeps of the outbox and of the commands that were passed on.
use smart_form.Base.{
  ℕ, String, ◌≡◌, Option, none, some, List, [], ◌∷◌, All, ◌==◌, subst, sym, ◌&&◌, ◌++◌, true,
}
use smart_form.Base.Exec.Preserves.{
  Preserves, Preserves-guard, Preserves-pure, Preserves-throw, Preserves-put, Preserves-require,
  Preserves-bind, Preserves-try_catch, preserves_rules,
}
use smart_form.Contracts.Protocol.{AgentCommand, AgentReport, envelope_of}
use smart_form.Database.{Tables, enqueue_report, acknowledge_report}
use smart_form.Realtime.Quiet.{
  Quiet, commands, commands-append, quiet_rules, beat-Quiet, flush_outbox-Quiet, on_close-Quiet,
  on_open-Quiet, required-Quiet, send_frame-Quiet, start-Quiet, stop-Quiet, transmit-Quiet,
}
use smart_form.Realtime.{
  AgentRealtimeClientConfig, Incoming, server_hello, task_command, command, report_ack, other,
  malformed, Client, Reports, row_of, connect,
}
use smart_form.Realtime.Handlers.{
  queue_report, acknowledge, required_command, started, stopping, report_queued, report_saved,
  frame_taken, socket_open, socket_closed, socket_failed, reconnect_due, heartbeat_due,
  take_message, on_message, handle, happen_all, Event, message_came, on_error,
}

-- Acknowledgments that `Allowed` does not admit are left out.
abbrev pub Admits : (String → Type 0) → Event → Type 0
Admits Allowed (message_came i (report_ack (some j))) = Allowed j
Admits Allowed e = Unit {0}

-- The three changes that a client makes to them.
pub record IsKept (c : AgentRealtimeClientConfig) (reports : Reports) (Allowed : String → Type 0)
    (F : Tables → List AgentCommand → Type 0) : Type 0 where
  pub queue :
      (r : AgentReport) (db : Tables) (ks : List AgentCommand)
      → F db ks
      → F (enqueue_report (row_of reports r) db) ks
  pub drop_row :
      (id : String)
      → Allowed id
      → (db : Tables) (ks : List AgentCommand) → F db ks
      → F (acknowledge_report id db) ks
  pub pass :
      (k : AgentCommand)
      → ((envelope_of k).tenant_id == c.tenant_id && (envelope_of k).device_id == c.device_id)
        ≡ true
      → (db : Tables) (ks : List AgentCommand) → F db ks
      → F db (ks ++ k ∷ [])

module _ (c : AgentRealtimeClientConfig) (reports : Reports) (Allowed : String → Type 0)
    (F : Tables → List AgentCommand → Type 0) (kept : IsKept c reports Allowed F) where
  queue_report-Quiet : (r : AgentReport) → Preserves (Quiet F) (queue_report c reports r)
  unfolding queue_report
  queue_report-Quiet r =
      Preserves-bind _ _ (required-Quiet F (reports.parse (reports.print r))) λ r'.
        Preserves-bind _ _ (Preserves-require _ _) λ _.
          Preserves-bind _ _
            (Preserves-put _
              λ s v. record { fact = kept.queue r' s.database (commands s.notices) v.fact })
            λ _. Preserves-pure r'

  acknowledge-Quiet :
      (i : ℕ) (j : Option String)
      → Admits Allowed (message_came i (report_ack j))
      → Preserves (Quiet F) (acknowledge c reports j)
  unfolding acknowledge
  acknowledge-Quiet i none admitted = Preserves-throw _
  acknowledge-Quiet i (some k) admitted = Preserves-bind _ _ (Preserves-require _ _) λ _.
      Preserves-put _
        λ s v. record { fact = kept.drop_row k admitted s.database (commands s.notices) v.fact }

  required_command-Quiet :
      (k : Option AgentCommand) → Preserves (Quiet F) (required_command c reports k)
  required_command-Quiet none = Preserves-throw _
  required_command-Quiet (some k) = Preserves-pure k

  take_message-Quiet :
      (i : ℕ) (m : Incoming)
      → Admits Allowed (message_came i m)
      → Preserves (Quiet F) (take_message c reports i m)
  unfolding take_message
  take_message-Quiet i server_hello admitted = search (quiet_rules, flush_outbox-Quiet F) depth 14
  take_message-Quiet i (task_command parsed) admitted =
      Preserves-bind _ _ (required_command-Quiet parsed) λ k. Preserves-guard _ _ _ λ own.
        Preserves-put _ λ s v. record {
          fact =
              subst (F s.database) (sym (commands-append s.notices (command k ∷ [])))
                (kept.pass k own s.database (commands s.notices) v.fact);
        }
  take_message-Quiet i (report_ack j) admitted = acknowledge-Quiet i j admitted
  take_message-Quiet i other admitted = Preserves-pure tt
  take_message-Quiet i malformed admitted = Preserves-throw _

  on_message-Quiet :
      (i : ℕ) (m : Incoming)
      → Admits Allowed (message_came i m)
      → Preserves (Quiet F) (on_message c reports i m)
  unfolding on_message
  on_message-Quiet i m admitted =
      Preserves-try_catch _ _ (take_message-Quiet i m admitted) λ e. search quiet_rules

  handle-Quiet : (e : Event) → Admits Allowed e → Preserves (Quiet F) (handle c reports e)
  unfolding handle connect on_error
  handle-Quiet started admitted = start-Quiet F
  handle-Quiet stopping admitted = stop-Quiet F
  handle-Quiet (report_queued r) admitted = search (preserves_rules, queue_report-Quiet)
  handle-Quiet (report_saved r) admitted = transmit-Quiet F c reports r
  handle-Quiet (frame_taken bytes) admitted = search (preserves_rules, send_frame-Quiet F)
  handle-Quiet (socket_open i) admitted = on_open-Quiet F c reports i
  handle-Quiet (socket_closed i) admitted = on_close-Quiet F c reports i
  handle-Quiet (message_came i m) admitted = on_message-Quiet i m admitted
  handle-Quiet (socket_failed i e) admitted = search quiet_rules
  handle-Quiet reconnect_due admitted = search quiet_rules
  handle-Quiet heartbeat_due admitted = beat-Quiet F c reports

  pub happen_all-Quiet :
      (es : List Event) (s : Client)
      → All (Admits Allowed) es
      → Quiet F s
      → Quiet F (happen_all c reports es s)
  unfolding happen_all
  happen_all-Quiet [] s admitted v = v
  happen_all-Quiet (e ∷ es) s (a, admitted) v =
      happen_all-Quiet es (handle c reports e s).1 admitted ((handle-Quiet e a).at s v)
