-- ===== src/Realtime/Quiet.antt =====
-- What leaves the outbox and the commands that were passed on as they were.
use smart_form.Base.{
  ℕ, ◌≡◌, refl, Option, none, some, List, [], ◌∷◌, subst, subst₂, sym, ap, ◌++◌, ◌∙◌, append-nil,
  if◌then◌else◌, false,
}
use smart_form.Base.Exec.{put_state, gets, pure}
use smart_form.Base.Exec.Preserves.{
  Preserves, Preserves-pure, Preserves-throw, Preserves-put, Preserves-require, Preserves-gets,
  Preserves-if, Preserves-bind, Preserves-try_catch, preserves_rules,
}
use smart_form.Contracts.Artifact.{Failure}
use smart_form.Contracts.Protocol.{AgentCommand, AgentReport}
use smart_form.Database.{Tables, OutboxRecord}
use smart_form.Realtime.{
  AgentRealtimeClientConfig, Client, Message, Reports, connect, start, stop, send_json, send_on,
  is_available, required, emit, Notice, command, connected, disconnected, client_error,
  close_current,
}
use smart_form.Realtime.Handlers.{
  transmit, send_frame, flush_record, flush_records, flush_outbox, schedule_reconnect, on_open,
  on_close, beat,
}

abbrev pub commands : List Notice → List AgentCommand
commands [] = []
commands (command k ∷ ns) = k ∷ commands ns
commands (n ∷ ns) = commands ns

pub commands-append : (ns ms : List Notice) → commands (ns ++ ms) ≡ commands ns ++ commands ms
commands-append [] ms = refl
commands-append (command k ∷ ns) ms = ap (λ l. k ∷ l) (commands-append ns ms)
commands-append (connected ∷ ns) ms = commands-append ns ms
commands-append (disconnected ∷ ns) ms = commands-append ns ms
commands-append (client_error e ∷ ns) ms = commands-append ns ms

commands-connected : (ns : List Notice) → commands (ns ++ connected ∷ []) ≡ commands ns
commands-connected ns = commands-append ns (connected ∷ []) ∙ append-nil (commands ns)

commands-disconnected : (ns : List Notice) → commands (ns ++ disconnected ∷ []) ≡ commands ns
commands-disconnected ns = commands-append ns (disconnected ∷ []) ∙ append-nil (commands ns)

commands-error :
    (e : Failure) (ns : List Notice) → commands (ns ++ client_error e ∷ []) ≡ commands ns
commands-error e ns = commands-append ns (client_error e ∷ []) ∙ append-nil (commands ns)

-- What `F` says of the database and of the commands that were passed on.
pub record Quiet (F : Tables → List AgentCommand → Type 0) (s : Client) : Type 0 where
  pub fact : F s.database (commands s.notices)

module _ (F : Tables → List AgentCommand → Type 0) where
  pub put-Quiet :
      (f : Client → Client)
      → ((s : Client) → (f s).database ≡ s.database)
      → ((s : Client) → (f s).notices ≡ s.notices)
      → Preserves {E = Failure} (Quiet F) (put_state f)
  put-Quiet f data_same notices_same = record {
    at = λ s v. record {
      fact = subst₂ F (sym (data_same s)) (sym (ap commands (notices_same s))) v.fact;
    };
  }

  pub emit-Quiet :
      (n : Notice)
      → ((ns : List Notice) → commands (ns ++ n ∷ []) ≡ commands ns)
      → Preserves (Quiet F) (emit n)
  emit-Quiet n silent = record {
    at = λ s v. record { fact = subst (F s.database) (sym (silent s.notices)) v.fact };
  }

  pub emit_connected-Quiet : Preserves (Quiet F) (emit connected)
  emit_connected-Quiet = emit-Quiet connected commands-connected

  pub emit_disconnected-Quiet : Preserves (Quiet F) (emit disconnected)
  emit_disconnected-Quiet = emit-Quiet disconnected commands-disconnected

  pub emit_error-Quiet : (e : Failure) → Preserves (Quiet F) (emit (client_error e))
  emit_error-Quiet e = emit-Quiet (client_error e) (commands-error e)

pub ruleset quiet_rules =
    (preserves_rules, put-Quiet, emit_connected-Quiet, emit_disconnected-Quiet, emit_error-Quiet)

module _ (F : Tables → List AgentCommand → Type 0) where
  pub send_on-Quiet : (i : Option ℕ) (m : Message) → Preserves (Quiet F) (send_on i m)
  send_on-Quiet none m = search preserves_rules
  send_on-Quiet (some i) m = search quiet_rules

  pub send_json-Quiet : (m : Message) → Preserves (Quiet F) (send_json m)
  unfolding send_json
  send_json-Quiet m = search (preserves_rules, send_on-Quiet)

  pub transmit-Quiet :
      (c : AgentRealtimeClientConfig) (reports : Reports) (r : AgentReport)
      → Preserves (Quiet F) (transmit c reports r)
  unfolding transmit
  transmit-Quiet c reports r = search (preserves_rules, send_json-Quiet)

  pub send_frame-Quiet :
      (c : AgentRealtimeClientConfig) (reports : Reports) (bytes : List ℕ)
      → Preserves (Quiet F) (send_frame c reports bytes)
  unfolding send_frame
  send_frame-Quiet c reports bytes = search (preserves_rules, send_json-Quiet)

  pub required-Quiet : (r : Option AgentReport) → Preserves (Quiet F) (required r)
  required-Quiet none = Preserves-throw _
  required-Quiet (some r) = Preserves-pure _

  pub flush_record-Quiet :
      (c : AgentRealtimeClientConfig) (reports : Reports) (row : OutboxRecord)
      → Preserves (Quiet F) (flush_record c reports row)
  unfolding flush_record
  flush_record-Quiet c reports row =
      search (quiet_rules, Preserves-try_catch, send_json-Quiet, required-Quiet) depth 12

  pub flush_records-Quiet :
      (c : AgentRealtimeClientConfig) (reports : Reports) (rows : List OutboxRecord)
      → Preserves (Quiet F) (flush_records c reports rows)
  unfolding flush_records
  flush_records-Quiet c reports [] = Preserves-pure tt
  flush_records-Quiet c reports (row ∷ rows) =
      Preserves-bind (gets is_available) _ (Preserves-gets is_available) λ available.
        Preserves-bind (if available then flush_record c reports row else pure false) _
          (search (preserves_rules, flush_record-Quiet))
          λ more. Preserves-if more _ _ (flush_records-Quiet c reports rows) (Preserves-pure tt)

  pub flush_outbox-Quiet :
      (c : AgentRealtimeClientConfig) (reports : Reports)
      → Preserves (Quiet F) (flush_outbox c reports)
  unfolding flush_outbox
  flush_outbox-Quiet c reports = search (preserves_rules, flush_records-Quiet)

  pub start-Quiet : Preserves (Quiet F) start
  unfolding start connect
  start-Quiet = search quiet_rules

  pub close_current-Quiet : (i : Option ℕ) → Preserves (Quiet F) (close_current i)
  close_current-Quiet none = Preserves-pure tt
  close_current-Quiet (some i) = search quiet_rules

  pub stop-Quiet : Preserves (Quiet F) stop
  unfolding stop
  stop-Quiet = search (quiet_rules, close_current-Quiet) depth 12

  pub schedule_reconnect-Quiet :
      (c : AgentRealtimeClientConfig) (reports : Reports)
      → Preserves (Quiet F) (schedule_reconnect c reports)
  unfolding schedule_reconnect
  schedule_reconnect-Quiet c reports = search quiet_rules

  pub on_close-Quiet :
      (c : AgentRealtimeClientConfig) (reports : Reports) (i : ℕ)
      → Preserves (Quiet F) (on_close c reports i)
  unfolding on_close
  on_close-Quiet c reports i = search (quiet_rules, schedule_reconnect-Quiet) depth 14

  pub on_open-Quiet :
      (c : AgentRealtimeClientConfig) (reports : Reports) (i : ℕ)
      → Preserves (Quiet F) (on_open c reports i)
  unfolding on_open
  on_open-Quiet c reports i = search (quiet_rules, send_json-Quiet) depth 8

  pub beat-Quiet :
      (c : AgentRealtimeClientConfig) (reports : Reports) → Preserves (Quiet F) (beat c reports)
  unfolding beat
  beat-Quiet c reports = search (preserves_rules, send_json-Quiet)
