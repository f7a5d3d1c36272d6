-- ===== src/Orchestrator/Receipts.antt =====
-- A command is carried out at most once: once its receipt is final, it only gets its reply again.
use smart_form.Base.{
  String, ◌≡◌, refl, true, Option, none, some, arith, eq_refl, inl, inr, Option-cases, Bool-cases,
}
use smart_form.Base.Exec.{Exec, Result, ok, err, ◌>>=◌, try_catch, recover, continue}
use smart_form.Base.Exec.Preserves.{Preserves}
use smart_form.Contracts.Artifact.{Failure}
use smart_form.Contracts.Json.{Payload}
use smart_form.Contracts.Protocol.{
  AgentCommand, Envelope, envelope_of, AgentReportType, command_ack, command_rejected,
}
use smart_form.Database.{
  Tables, CommandReceiptRecord, ReceiptStatus, accepted, rejected, get_command_receipt,
  save_command_receipt, merge_receipt,
}
use smart_form.Database.Upserts.{get_command_receipt-save}
use smart_form.Orchestrator.Host.{Host, Identity, State, ask}
use smart_form.Orchestrator.Records.{receipt_of, save_receipt, send_report, write_database}
use smart_form.Orchestrator.Process.{
  validate_envelope, note_processing, perform, attempt, report_artifact, capability_of,
  reject_command, serve_first, process_with, process_command, is_final,
}

-- The state apart from the reports sent and the host's.
pub record SameAs {W : Type 0} (start s : State W) : Type 0 where
  pub active : s.active ≡ start.active
  pub control : s.control ≡ start.control
  pub database : s.database ≡ start.database
  pub next_serial : s.next_serial ≡ start.next_serial

-- When `m` returns, it leaves a state of `Q`.
record Ensures {S A : Type 0} (Q : S → Type 0) (m : Exec Failure S A) : Type 0 where
  at : (s : S) (a : A) → (m s).0 ≡ ok a → Q (m s).1

module _ {S A B : Type 0} {Q : S → Type 0} where
  Ensures-bind :
      (m : Exec Failure S A) (f : A → Exec Failure S B)
      → ((a : A) → Ensures Q (f a))
      → Ensures Q (m >>= f)
  Ensures-bind m f later = record { at = λ s b done. Ensures-continue (m s).0 (m s).1 b done }
    where
      Ensures-continue :
          (r : Result Failure A) (s : S) (b : B) → (continue r f s).0 ≡ ok b → Q (continue r f s).1
      Ensures-continue (ok a) s b done = (later a).at s b done
      Ensures-continue (err e) s b done = absurd (ground arith)

  Ensures-then :
      (m : Exec Failure S A) (f : A → Exec Failure S B)
      → Ensures Q m
      → ((a : A) → Preserves Q (f a))
      → Ensures Q (m >>= f)
  Ensures-then m f first keeps = record {
    at = λ s b done. Ensures-after (m s).0 (m s).1 b done (λ a e. first.at s a e);
  }
    where
      Ensures-after :
          (r : Result Failure A) (s : S) (b : B)
          → (continue r f s).0 ≡ ok b
          → ((a : A) → r ≡ ok a → Q s)
          → Q (continue r f s).1
      Ensures-after (ok a) s b done given = (keeps a).at s (given a refl)
      Ensures-after (err e) s b done given = absurd (ground arith)

module _ {S A : Type 0} {Q : S → Type 0} where
  Ensures-try_catch :
      (m : Exec Failure S A) (handler : Failure → Exec Failure S A)
      → Ensures Q m
      → ((e : Failure) → Ensures Q (handler e))
      → Ensures Q (try_catch m handler)
  Ensures-try_catch m handler first later = record {
    at = λ s a done. Ensures-recover (m s).0 (m s).1 a done (λ b e. first.at s b e);
  }
    where
      Ensures-recover :
          (r : Result Failure A) (s : S) (a : A)
          → (recover (r, s) handler).0 ≡ ok a
          → ((b : A) → r ≡ ok b → Q s)
          → Q (recover (r, s) handler).1
      Ensures-recover (ok b) s a done given = given b refl
      Ensures-recover (err e) s a done given = (later e).at s a done

-- The command has a receipt that says how it ended.
pub record IsServed {W : Type 0} (command_id : String) (s : State W) : Type 0 where
  pub receipt : CommandReceiptRecord
  pub stored : get_command_receipt command_id s.database ≡ some receipt
  pub final : is_final receipt.status ≡ true

module _ {W : Type 0} (h : Host W) (me : Identity) where
  ask-IsServed :
      {A : Type 0} (id : String) (m : Exec Failure W A) → Preserves (IsServed {W = W} id) (ask m)
  ask-IsServed id m = record {
    at = λ s v. record { receipt = v.receipt; stored = v.stored; final = v.final };
  }

  send_report-IsServed :
      (id : String) (t : AgentReportType) (e : Envelope) (p : Payload)
      → Preserves (IsServed {W = W} id) (send_report h me t e p)
  unfolding send_report
  send_report-IsServed id t e p = record {
    at = λ s v. ground (arith, v.receipt, v.stored, v.final);
  }

  send_report-SameAs :
      (start : State W) (t : AgentReportType) (e : Envelope) (p : Payload)
      → Preserves (SameAs start) (send_report h me t e p)
  unfolding send_report
  send_report-SameAs start t e p = record {
    at = λ s v. ground (arith, v.active, v.control, v.database, v.next_serial);
  }

  stored_receipt :
      (r : CommandReceiptRecord) (db : Tables)
      → is_final r.status ≡ true
      → (stored : CommandReceiptRecord) × (get_command_receipt r.command_id
            (save_command_receipt r db)
          ≡ some stored)
        × (is_final stored.status ≡ true)
  stored_receipt r db final = elim (Option-cases (get_command_receipt r.command_id db)) [
    | inl absent ↦ (
      r,
      rw (get_command_receipt-save r r.command_id db) (rw (eq_refl r.command_id) (rw absent refl)),
      final,
    )
    | inr (old, found) ↦ (
      merge_receipt old r,
      rw (get_command_receipt-save r r.command_id db) (rw (eq_refl r.command_id) (rw found refl)),
      final,
    )
  ]

  save_receipt-IsServed :
      (c : AgentCommand) (status : ReceiptStatus) (result : Payload)
      → is_final status ≡ true
      → Ensures (IsServed {W = W} (envelope_of c).command_id) (save_receipt h c status result)
  unfolding save_receipt
  save_receipt-IsServed c status result final =
      Ensures-bind (ask h.now)
        (λ now. write_database h (save_command_receipt (receipt_of c status result now)))
        λ now. record {
          at = λ s a done.
              let (r, stored, ended) =
                stored_receipt (receipt_of c status result now) s.database final in
              record { receipt = r; stored = stored; final = ended };
        }

  attempt-IsServed :
      (c : AgentCommand) (prior : Option CommandReceiptRecord)
      → Ensures (IsServed {W = W} (envelope_of c).command_id) (attempt h me c prior)
  unfolding attempt
  attempt-IsServed c prior = Ensures-bind (validate_envelope h me (envelope_of c)) _ λ _.
      Ensures-bind (note_processing h me c prior) _ λ _. Ensures-bind (perform h me c) _ λ _.
        Ensures-then _ _ (save_receipt-IsServed c accepted _ refl)
          λ _. send_report-IsServed _ command_ack _ _

  reject_command-IsServed :
      (c : AgentCommand) (f : Failure)
      → Ensures (IsServed {W = W} (envelope_of c).command_id) (reject_command h me c f)
  unfolding reject_command
  reject_command-IsServed c f =
      Ensures-bind (report_artifact h me c f (capability_of h me c)) _ λ _.
        Ensures-then _ _ (save_receipt-IsServed c rejected _ refl)
          λ _. send_report-IsServed _ command_rejected _ _

  serve_first-IsServed :
      (c : AgentCommand) (prior : Option CommandReceiptRecord)
      → Ensures (IsServed {W = W} (envelope_of c).command_id) (serve_first h me c prior)
  serve_first-IsServed c prior =
      Ensures-try_catch _ _ (attempt-IsServed c prior) (reject_command-IsServed c)

  -- A command that was handled, whether it was carried out or refused, leaves a receipt that says how
  -- it ended.
  pub process_command-IsServed :
      (c : AgentCommand) (s : State W)
      → (process_command h me c s).0 ≡ ok tt
      → IsServed (envelope_of c).command_id (process_command h me c s).1
  unfolding process_command process_with
  process_command-IsServed c s done =
      elim (Option-cases (get_command_receipt (envelope_of c).command_id s.database)) [
        | inl absent ↦ rw absent ((serve_first-IsServed c none).at s tt (rw absent at done))
        | inr (prior, found) ↦ elim (Bool-cases (is_final prior.status)) [
          | inl final ↦ rw found (
              rw final (
                (send_report-IsServed _ _ (envelope_of c) _).at s
                  (record { receipt = prior; stored = found; final = final })))
          | inr pending ↦ rw found (
              rw pending
                ((serve_first-IsServed c (some prior)).at s tt (rw pending at (rw found at done))))
        ]
      ]

  -- A command whose receipt says how it ended changes neither the active task, nor the control lease,
  -- nor the database, whatever its type and content.
  pub duplicate-SameAs :
      (c : AgentCommand) (s : State W)
      → IsServed (envelope_of c).command_id s
      → SameAs s (process_command h me c s).1
  unfolding process_command process_with
  duplicate-SameAs c s v = rw v.stored (
      rw v.final (
        (send_report-SameAs s _ (envelope_of c) _).at s
          (record { active = refl; control = refl; database = refl; next_serial = refl })))
