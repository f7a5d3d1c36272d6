-- ===== src/Runner/Keeps/Program.antt =====
-- A program of allowed steps keeps what each of its calls keeps, whether it returns or throws.
use smart_form.Base.{
  ℕ, suc, String, ◌≡◌, refl, Bool, true, false, not, Option, none, some, List, [], ◌∷◌, ◌++◌, arith,
  All, ◌==◌,
}
use smart_form.Base.Exec.{put_state}
use smart_form.Base.Exec.Preserves.{
  Preserves, Leads, Leads-bind, Leads-Preserves, Preserves-bind, Preserves-pure, Preserves-throw,
  Preserves-gets, Preserves-put, Preserves-guard, Preserves-try_finally, Preserves-if,
}
use smart_form.Contracts.Artifact.{Failure, error}
use smart_form.Contracts.Task.{TaskDefinition, is_write}
use smart_form.Contracts.Program.{
  CapabilityStep, ExtractField, FieldRead, navigate, click, fill, select, press, wait_for, extract,
  submit,
}
use smart_form.Runner.{
  Page, Call, SubmissionApprovalRequest, is_url_allowed, is_commit_selector, went, clicked, filled,
  selected, pressed, waited, counted, read_from, asked, approved,
}
use smart_form.Runner.Steps.{
  call, read_attribute, read_field, read_fields, read_rows, row_count, request_for, answered,
  submit_request, submit_form, perform, guarded, run_step, run_program, with_field, member,
}
use smart_form.Runner.Keeps.{
  Notes, Keeps, host-Notes, call-Notes, inside_domains-Notes, resolve_value-Notes,
}

-- The last calls noted are the request and what follows it.
abbrev JustAsked : (List Call → Type 0) → SubmissionApprovalRequest → List Call → Type 0
JustAsked G r log = G log × ((rest : List Call) × (log ≡ asked r ∷ rest))

abbrev JustApproved : (List Call → Type 0) → SubmissionApprovalRequest → List Call → Type 0
JustApproved G r log = G log × ((rest : List Call) × (log ≡ approved r ∷ asked r ∷ rest))

module _ {W : Type 0} (page : Page W) (task : TaskDefinition) (Allowed : CapabilityStep → Type 0)
    (G : List Call → Type 0) (keeps : Keeps page task Allowed G) where
  read_attribute-Notes :
      (root : Option (String × ℕ)) (field : ExtractField) (a : Option String)
      → Preserves (Notes G) (read_attribute page root field a)
  read_attribute-Notes root field none = Preserves-throw _
  read_attribute-Notes root field (some a) = Preserves-if (a == "") _ _ (Preserves-throw _) (
      call-Notes page G (read_from field.selector) (page.get_attribute root field.selector a)
        (keeps.reads field.selector))

  read_field-Notes :
      (root : Option (String × ℕ)) (field : ExtractField) (kind : FieldRead)
      → Preserves (Notes G) (read_field page root field kind)
  unfolding read_field
  read_field-Notes root field FieldRead.attribute =
      read_attribute-Notes root field field.attribute_name
  read_field-Notes root field FieldRead.value =
      Preserves-bind _ _
        (call-Notes page G (read_from field.selector) (page.input_value root field.selector)
          (keeps.reads field.selector))
        λ v. Preserves-pure _
  read_field-Notes root field FieldRead.text =
      Preserves-bind _ _
        (call-Notes page G (read_from field.selector) (page.text_content root field.selector)
          (keeps.reads field.selector))
        λ t. Preserves-pure _

  read_fields-Notes :
      (root : Option (String × ℕ)) (fields : List ExtractField)
      (row : List (String × Option String))
      → Preserves (Notes G) (read_fields page root fields row)
  unfolding read_fields
  read_fields-Notes root [] row = Preserves-pure row
  read_fields-Notes root (field ∷ fields) row =
      Preserves-bind _ _ (read_field-Notes root field field.read)
        λ v. read_fields-Notes root fields (with_field page field.name v row)

  read_rows-Notes :
      (collection : Option String) (fields : List ExtractField) (left index : ℕ)
      → Preserves (Notes G) (read_rows page collection fields index left)
  unfolding read_rows
  read_rows-Notes collection fields ℕ.zero index = Preserves-pure tt
  read_rows-Notes collection fields (suc left) index =
      Preserves-bind _ _ (read_fields-Notes (member page collection index) fields []) λ row.
        Preserves-bind _ _
          (Preserves-put (λ s. record s { data_rows = s.data_rows ++ row ∷ [] })
            λ s v. record { fact = v.fact })
          λ _. read_rows-Notes collection fields left (suc index)

  row_count-Notes :
      (collection : Option String) (n : ℕ) → Preserves (Notes G) (row_count page collection n)
  unfolding row_count
  row_count-Notes none n = Preserves-pure 1
  row_count-Notes (some collection) n =
      Preserves-bind _ _
        (call-Notes page G (counted collection) (page.count collection) (keeps.counts collection))
        λ k. Preserves-pure _

  approve-Notes :
      (r : SubmissionApprovalRequest) (keys : List String)
      → Allowed (submit r.selector keys)
      → Leads {E = Failure}
          (Notes (JustAsked G r))
          (Notes (JustApproved G r) {W = W})
          (put_state (λ s. record s { calls = approved r ∷ s.calls }))
  approve-Notes r keys allowed = record {
    at = λ s v.
        let (g, (rest, e)) = v.fact in
        record { fact = (rw e (keeps.agrees r keys rest allowed (rw e at g)), (rest, rw e refl)) };
  }

  submit-Notes :
      (r : SubmissionApprovalRequest) (keys : List String)
      → Allowed (submit r.selector keys)
      → is_write task.mode ≡ true
      → r.task_id ≡ task.id
      → Leads
          (Notes (JustApproved G r))
          (Notes G)
          (call page (clicked r.selector) (page.click r.selector))
  submit-Notes r keys allowed w same = record {
    at = λ s v.
        let (g, (rest, e)) = v.fact in
        record { fact = rw e (keeps.submits r keys rest allowed w same (rw e at g)) };
  }

  add_submission-Notes :
      (id : String)
      → Leads {E = Failure}
          (Notes G {W = W})
          (Notes G)
          (put_state (λ s. record s { submissions = s.submissions ++ id ∷ [] }))
  add_submission-Notes id = record { at = λ s v. record { fact = v.fact } }

  answered-Notes :
      (r : SubmissionApprovalRequest) (keys : List String) (answer : Bool)
      → Allowed (submit r.selector keys)
      → is_write task.mode ≡ true
      → r.task_id ≡ task.id
      → Leads (Notes (JustAsked G r)) (Notes G) (answered page task r answer)
  unfolding answered
  answered-Notes r keys false allowed w same = record { at = λ s v. record { fact = v.fact.0 } }
  answered-Notes r keys true allowed w same =
      Leads-bind _ _ (λ s v. record { fact = v.fact.0 }) (approve-Notes r keys allowed)
        λ _.
          Leads-bind _ _ (λ s v. record { fact = v.fact.0 })
            (Leads-Preserves (
              inside_domains-Notes page (JustApproved G r) task
                (error "Submission page changed outside the allowed domains")))
            λ _.
              Leads-bind _ _ (λ s v. v) (submit-Notes r keys allowed w same)
                λ _. add_submission-Notes r.submission_id

  ask-Notes :
      (r : SubmissionApprovalRequest)
      → Leads (Notes G) (Notes (JustAsked G r)) (call page (asked r) (page.request_approval r))
  ask-Notes r = record {
    at = λ s v. record { fact = (keeps.asks r s.calls v.fact, (s.calls, refl)) };
  }

  submit_request-Notes :
      (r : SubmissionApprovalRequest) (keys : List String)
      → Allowed (submit r.selector keys)
      → is_write task.mode ≡ true
      → r.task_id ≡ task.id
      → Preserves (Notes G) (submit_request page task r)
  unfolding submit_request
  submit_request-Notes r keys allowed w same = record {
    at =
        (Leads-bind _ _ (λ s v. record { fact = v.fact.0 }) (ask-Notes r)
          λ answer. answered-Notes r keys answer allowed w same).at;
  }

  submit_form-Notes :
      (selector : String) (keys : List String)
      → Allowed (submit selector keys)
      → Preserves (Notes G) (submit_form page task selector keys)
  unfolding submit_form
  submit_form-Notes selector keys allowed = Preserves-guard (is_write task.mode) _ _ λ w.
      Preserves-bind _ _ (host-Notes page G page.uuid) λ id.
        Preserves-bind _ _ (Preserves-gets (λ s. page.url s.world)) λ url.
          submit_request-Notes (request_for page task selector keys id url) keys allowed w refl

  perform-Notes :
      (step : CapabilityStep) → Allowed step → Preserves (Notes G) (perform page task step)
  unfolding perform
  perform-Notes (navigate url) allowed =
      Preserves-guard (is_url_allowed page.urls url task.site.allowed_domains) _ _ λ inside.
        call-Notes page G (went url) (page.goto url) λ log g. keeps.goes url log allowed inside g
  perform-Notes (click selector) allowed =
      Preserves-guard (not (is_commit_selector selector)) _ _ λ plain.
        call-Notes page G (clicked selector) (page.click selector)
          λ log g. keeps.clicks selector log allowed (ground (arith, plain)) g
  perform-Notes (fill selector v) allowed =
      Preserves-bind _ _ (resolve_value-Notes page G v task) λ t.
        call-Notes page G (filled selector t) (page.fill selector t)
          λ log g. keeps.fills selector t v log allowed g
  perform-Notes (select selector v) allowed =
      Preserves-bind _ _ (resolve_value-Notes page G v task) λ t.
        call-Notes page G (selected selector t) (page.select_option selector t)
          λ log g. keeps.selects selector t v log allowed g
  perform-Notes (press selector key) allowed =
      call-Notes page G (pressed selector key) (page.press selector key)
        λ log g. keeps.presses selector key log allowed g
  perform-Notes (wait_for selector state) allowed =
      call-Notes page G (waited selector) (page.wait_for selector state)
        λ log g. keeps.waits selector log g
  perform-Notes (extract collection n fields) allowed =
      Preserves-bind _ _ (row_count-Notes collection n) λ k. read_rows-Notes collection fields k 0
  perform-Notes (submit selector keys) allowed = submit_form-Notes selector keys allowed

  run_step-Notes :
      (step : CapabilityStep) (index : ℕ)
      → Allowed step
      → Preserves (Notes G) (run_step page task step index)
  unfolding run_step guarded
  run_step-Notes step index allowed =
      Preserves-bind _ _ (host-Notes page G (page.before_step step index)) λ _.
        Preserves-try_finally _ _
          (Preserves-bind _ _ (inside_domains-Notes page G task _) λ _. perform-Notes step allowed)
          (host-Notes page G (page.after_step step index))

  pub run_program-Notes :
      (steps : List CapabilityStep) (index : ℕ)
      → All Allowed steps
      → Preserves (Notes G) (run_program page task steps index)
  unfolding run_program
  run_program-Notes [] index allowed = Preserves-pure tt
  run_program-Notes (step ∷ steps) index (first, allowed) =
      Preserves-bind _ _ (run_step-Notes step index first)
        λ _. run_program-Notes steps (suc index) allowed
