-- ===== src/Realtime/Flush.antt =====
-- What a welcome sends, and that a server which acknowledges all it gets empties the outbox.
use smart_form.Base.{
  ℕ, String, Bool, true, false, ◌≡◌, refl, ap, sym, ◌∙◌, some, List, [], ◌∷◌, ◌++◌, All, any, ◌==◌,
  if◌then◌else◌, nat_eq, append_assoc, append-nil,
}
use smart_form.Base.Exec.{Result, ok, Exec, pure, ◌>>=◌, continue}
use smart_form.Contracts.Artifact.{Failure}
use smart_form.Contracts.Protocol.{AgentReport}
use smart_form.Database.{OutboxRecord, acknowledge_report, list_outbox}
use smart_form.Realtime.{
  AgentRealtimeClientConfig, server_hello, report_ack, Client, Message, report_message, Reports,
  send_json, is_available, connected, is_settled,
}
use smart_form.Realtime.Handlers.{
  flush_record, flush_records, flush_outbox, acknowledge, take_message, on_message,
}

-- The report that a row holds.
pub record Holds (reports : Reports) (row : OutboxRecord) : Type 0 where
  pub report : AgentReport
  pub parses : reports.parse row.payload ≡ some report
  pub same_id : report.report_id ≡ row.report_id
  pub named : (row.report_id == "") ≡ false

module _ (reports : Reports) where
  -- The messages of the rows, for the socket.
  abbrev pub messages_of :
      ℕ → (rows : List OutboxRecord) → All (Holds reports) rows → List (ℕ × Message)
  messages_of i [] held = []
  messages_of i (row ∷ rows) (h, held) = (i, report_message h.report) ∷ messages_of i rows held

  module _ (c : AgentRealtimeClientConfig) (i : ℕ) where
    flush_record_lem :
        (row : OutboxRecord) (h : Holds reports row) (s : Client)
        → s.socket ≡ some i
        → any (nat_eq i) s.ready ≡ true
        → flush_record c reports row s
          ≡ (ok true, record s { sent = s.sent ++ (i, report_message h.report) ∷ [] })
    unfolding flush_record send_json
    flush_record_lem row h s on open_now = rw (h.parses, on, open_now)

    available :
        (s : Client)
        → s.authenticated ≡ true
        → s.socket ≡ some i
        → any (nat_eq i) s.ready ≡ true
        → is_available s ≡ true
    available s known on open_now = rw (known, on, open_now)

    flush_records_lem :
        (rows : List OutboxRecord) (held : All (Holds reports) rows) (s : Client)
        → s.authenticated ≡ true
        → s.socket ≡ some i
        → any (nat_eq i) s.ready ≡ true
        → flush_records c reports rows s
          ≡ (ok tt, record s { sent = s.sent ++ messages_of i rows held })
    unfolding flush_records
    flush_records_lem [] held s known on open_now =
        ap (λ l. (ok tt, record s { sent = l })) (sym (append-nil s.sent))
    flush_records_lem (row ∷ rows) (h, held) s known on open_now =
        let rest : Bool → Exec Failure Client Unit =
          λ more. if more then flush_records c reports rows else pure tt in
        ap (λ b. ((if b then flush_record c reports row else pure false) >>= rest) s)
          (available s known on open_now)
        ∙ ap (λ (r : Result Failure Bool × Client). continue r.0 rest r.1)
            (flush_record_lem row h s on open_now)
        ∙ flush_records_lem rows held
            (record s { sent = s.sent ++ (i, report_message h.report) ∷ [] }) known on open_now
        ∙ ap (λ l. (ok tt, record s { sent = l })) (append_assoc s.sent _ _)

    -- A welcome on the open socket sends the first hundred reports of the outbox in order.
    pub on_message-server_hello :
        (s : Client)
        → s.socket ≡ some i
        → any (nat_eq i) s.ready ≡ true
        → (held : All (Holds reports) (list_outbox 100 s.database))
        → (on_message c reports i server_hello s).1 ≡ record s {
          authenticated = true;
          reconnect_attempt = 0;
          heartbeat_timer = true;
          sent = s.sent ++ messages_of i (list_outbox 100 s.database) held;
          notices = s.notices ++ connected ∷ [];
          settled = if is_settled i s.settled then s.settled else s.settled ++ (i, true) ∷ [];
        }
    unfolding on_message take_message flush_outbox
    on_message-server_hello s on open_now held = rw (
        flush_records_lem (list_outbox 100 s.database) held
          (record s { authenticated = true; reconnect_attempt = 0; heartbeat_timer = true }) refl on
          open_now)

    pub on_message-report_ack :
        (id : String) (s : Client)
        → (id == "") ≡ false
        → (on_message c reports i (report_ack (some id)) s).1
          ≡ record s { database = acknowledge_report id s.database }
    unfolding on_message take_message acknowledge
    on_message-report_ack id s named = rw named
