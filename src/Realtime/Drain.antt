-- ===== src/Realtime/Drain.antt =====
-- A server that acknowledges the reports it gets empties the outbox, a hundred at a connection.
use smart_form.Base.{
  ℕ, zero, suc, ◌+◌, ◌*◌, ◌≤◌, String, true, false, ◌≡◌, refl, ap, sym, subst, ◌∙◌, some, List, [],
  ◌∷◌, ◌++◌, All, any, length, min, arith, ◌==◌, if◌then◌else◌, nat_eq, drop,
}
use smart_form.Database.{Tables, OutboxRecord, acknowledge_report, list_outbox}
use smart_form.Realtime.{
  AgentRealtimeClientConfig, server_hello, Client, Reports, connected, is_settled,
}
use smart_form.Realtime.Handlers.{handle, happen_all, on_message}
use smart_form.Realtime.Flush.{Holds, messages_of, on_message-server_hello, on_message-report_ack}
use smart_form.Realtime.Left.{
  drop-length, ids_of, acknowledgments, left, left-nil, left-delete, length-zero, report_ids,
  All-left, All-list_outbox, length-left_listed,
}

module _ (reports : Reports) (i : ℕ) where
  ids_of-messages_of :
      (rows : List OutboxRecord) (held : All (Holds reports) rows)
      → ids_of (messages_of reports i rows held) ≡ report_ids rows
  unfolding report_ids
  ids_of-messages_of [] held = refl
  ids_of-messages_of (row ∷ rows) (h, held) = rw (h.same_id, ids_of-messages_of rows held)

  module _ (c : AgentRealtimeClientConfig) where
    acknowledged :
        (ids : List String) (s : Client)
        → All (λ id. (id == "") ≡ false) ids
        → (db : Tables) × (happen_all c reports (acknowledgments i ids) s
            ≡ record s { database = db })
          × (db.outbox ≡ left ids s.database.outbox)
    unfolding happen_all handle acknowledge_report
    acknowledged [] s h = (s.database, refl, sym (left-nil s.database.outbox))
    acknowledged (id ∷ ids) s (p, h) =
        let (db, same, rest) =
          acknowledged ids (record s { database = acknowledge_report id s.database }) h in
        (
          db,
          ap (λ t. happen_all c reports (acknowledgments i ids) t)
                (on_message-report_ack reports c i id s p)
              ∙ same,
          rest ∙ left-delete id ids s.database.outbox,
        )

    -- The socket is welcomed, and each report that the welcome sent is acknowledged.
    pub round : Client → Client
    round s =
        let s' = (on_message c reports i server_hello s).1 in
        happen_all c reports (acknowledgments i (ids_of (drop (length s.sent) s'.sent))) s'

    -- The socket is the client's and open, and each row of the outbox holds a report.
    pub record IsReady (s : Client) : Type 0 where
      pub on : s.socket ≡ some i
      pub open_now : any (nat_eq i) s.ready ≡ true
      pub held : All (Holds reports) s.database.outbox

    All-named :
        (rows : List OutboxRecord)
        → All (Holds reports) rows
        → All (λ id. (id == "") ≡ false) (report_ids rows)
    unfolding report_ids
    All-named [] held = tt
    All-named (row ∷ rows) (h, held) = (h.named, All-named rows held)

    round_outcome :
        (s : Client)
        → IsReady s
        → ((round s).socket ≡ s.socket)
          × ((round s).ready ≡ s.ready)
          × ((round s).database.outbox
              ≡ left (report_ids (list_outbox 100 s.database)) s.database.outbox)
    unfolding round
    round_outcome s v =
        let held = All-list_outbox (Holds reports) s.database v.held in
        let rows = list_outbox 100 s.database in
        let t : Client = record s {
          authenticated = true;
          reconnect_attempt = 0;
          heartbeat_timer = true;
          sent = s.sent ++ messages_of reports i rows held;
          notices = s.notices ++ connected ∷ [];
          settled = if is_settled i s.settled then s.settled else s.settled ++ (i, true) ∷ [];
        } in
        let (db, same, rest) = acknowledged (report_ids rows) t (All-named rows held) in
        let from = λ (ids : List String). happen_all c reports (acknowledgments i ids) t in
        let e : round s ≡ record t { database = db } =
          ap
            (λ u. happen_all c reports (acknowledgments i (ids_of (drop (length s.sent) u.sent))) u)
            (on_message-server_hello reports c i s v.on v.open_now held)
          ∙ ap (λ l. from (ids_of l)) (drop-length s.sent (messages_of reports i rows held))
          ∙ ap from (ids_of-messages_of rows held)
          ∙ same in
        (ap (λ u. u.socket) e, ap (λ u. u.ready) e, ap (λ u. u.database.outbox) e ∙ rest)

    round_lem :
        (s : Client)
        → IsReady s
        → IsReady (round s)
          × (length (round s).database.outbox + min 100 (length s.database.outbox)
              ≤ length s.database.outbox)
    unfolding round
    round_lem s v =
        let (socket, ready, rest) = round_outcome s v in
        (
          record {
            on = socket ∙ v.on;
            open_now = ap (any (nat_eq i)) ready ∙ v.open_now;
            held =
                subst (All (Holds reports)) (sym rest)
                  (All-left (Holds reports) _ s.database.outbox v.held);
          },
          rw rest (length-left_listed s.database),
        )

    pub rounds : ℕ → Client → Client
    rounds zero s = s
    rounds (suc k) s = rounds k (round s)

    -- Whatever is in the outbox, a server that acknowledges what it gets has got all of it after as
    -- many welcomes as there are hundreds of reports.
    pub drained :
        (k : ℕ) (s : Client)
        → IsReady s
        → length s.database.outbox ≤ 100 * k
        → (rounds k s).database.outbox ≡ []
    unfolding rounds
    drained zero s v h = length-zero s.database.outbox (omega arith)
    drained (suc k) s v h =
        let (ready, shorter) = round_lem s v in drained k (round s) ready (omega arith)
