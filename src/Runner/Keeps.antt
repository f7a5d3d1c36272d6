-- ===== src/Runner/Keeps.antt =====
-- What is kept of the calls of a program, one condition for each kind of call.
pub mod Program
use smart_form.Base.{
  ℕ, suc, String, ◌≡◌, refl, Bool, true, false, not, Option, none, some, List, [], ◌∷◌, ◌++◌, arith,
  All, Bool-cases, inl, inr, text_concat, ◌==◌,
}
use smart_form.Base.Exec.{
  Exec, Result, ok, err, pure, throw, gets, put_state, ◌>>=◌, ◌>>◌, require, try_finally, complete,
}
use smart_form.Base.Exec.Preserves.{
  Preserves, Leads, Leads-bind, Leads-Preserves, Preserves-bind, Preserves-pure, Preserves-throw,
  Preserves-gets, Preserves-require, Preserves-put, preserves_rules,
}
use smart_form.Contracts.Artifact.{Failure, error}
use smart_form.Contracts.Task.{TaskDefinition, is_write, Scalar}
use smart_form.Contracts.Program.{
  CapabilityStep, CapabilityValue, literal, input, ExtractField, FieldRead, navigate, click, fill,
  select, press, wait_for, extract, submit,
}
use smart_form.Runner.{
  Page, Run, Call, SubmissionApprovalRequest, is_url_allowed, is_commit_selector, went, clicked,
  filled, selected, pressed, waited, counted, read_from, asked, approved,
}
use smart_form.Runner.Steps.{
  M, call, host, resolve_value, input_of, input_value, missing_input, inherited_text, lookup,
  read_attribute, read_field, read_fields, read_rows, row_count, inside_domains, request_for,
  answered, submit_request, submit_form, perform, guarded, run_step, run_program,
}

-- `G` of the calls noted.
pub record Notes (G : List Call → Type 0) {W : Type 0} (s : Run W) : Type 0 where
  pub fact : G s.calls

-- `G` is kept by each call that a step in `Allowed` may make for this task.
pub record Keeps {W : Type 0} (page : Page W) (task : TaskDefinition)
    (Allowed : CapabilityStep → Type 0) (G : List Call → Type 0) : Type 0 where
  pub goes :
      (url : String) (log : List Call)
      → Allowed (navigate url)
      → is_url_allowed page.urls url task.site.allowed_domains ≡ true
      → G log
      → G (went url ∷ log)
  pub clicks :
      (selector : String) (log : List Call)
      → Allowed (click selector)
      → is_commit_selector selector ≡ false
      → G log
      → G (clicked selector ∷ log)
  pub fills :
      (selector text : String) (v : CapabilityValue) (log : List Call)
      → Allowed (fill selector v)
      → G log
      → G (filled selector text ∷ log)
  pub selects :
      (selector text : String) (v : CapabilityValue) (log : List Call)
      → Allowed (select selector v)
      → G log
      → G (selected selector text ∷ log)
  pub presses :
      (selector key : String) (log : List Call)
      → Allowed (press selector key)
      → G log
      → G (pressed selector key ∷ log)
  pub waits : (selector : String) (log : List Call) → G log → G (waited selector ∷ log)
  pub counts : (selector : String) (log : List Call) → G log → G (counted selector ∷ log)
  pub reads : (selector : String) (log : List Call) → G log → G (read_from selector ∷ log)
  pub asks : (r : SubmissionApprovalRequest) (log : List Call) → G log → G (asked r ∷ log)
  pub agrees :
      (r : SubmissionApprovalRequest) (keys : List String) (log : List Call)
      → Allowed (submit r.selector keys)
      → G (asked r ∷ log)
      → G (approved r ∷ asked r ∷ log)
  pub submits :
      (r : SubmissionApprovalRequest) (keys : List String) (log : List Call)
      → Allowed (submit r.selector keys)
      → is_write task.mode ≡ true
      → r.task_id ≡ task.id
      → G (approved r ∷ asked r ∷ log)
      → G (clicked r.selector ∷ approved r ∷ asked r ∷ log)

module _ {W : Type 0} (page : Page W) (G : List Call → Type 0) where
  pub host-Notes : {A : Type 0} (m : Exec Failure W A) → Preserves (Notes G) (host page m)
  host-Notes m = record { at = λ s v. record { fact = v.fact } }

  pub call-Notes :
      {A : Type 0} (c : Call) (m : Exec Failure W A)
      → ((log : List Call) → G log → G (c ∷ log))
      → Preserves (Notes G) (call page c m)
  call-Notes c m grows = record { at = λ s v. record { fact = grows s.calls v.fact } }

  pub inside_domains-Notes :
      (task : TaskDefinition) (e : Failure) → Preserves (Notes G) (inside_domains page task e)
  unfolding inside_domains
  inside_domains-Notes task e = search preserves_rules

  missing_input-Notes :
      (key : String) (t : Option String) → Preserves (Notes G {W = W}) (missing_input key t)
  missing_input-Notes key none = Preserves-throw _
  missing_input-Notes key (some t) = Preserves-pure t

  input_value-Notes :
      (key : String) (v : Option Scalar) → Preserves (Notes G {W = W}) (input_value key v)
  input_value-Notes key none = missing_input-Notes key (inherited_text key)
  input_value-Notes key (some v) = Preserves-pure _

  input_of-Notes :
      (key : String) (values : Option (List (String × Scalar)))
      → Preserves (Notes G {W = W}) (input_of key values)
  input_of-Notes key none = Preserves-throw _
  input_of-Notes key (some values) = input_value-Notes key (lookup key values)

  pub resolve_value-Notes :
      (v : CapabilityValue) (task : TaskDefinition)
      → Preserves (Notes G {W = W}) (resolve_value v task)
  unfolding resolve_value
  resolve_value-Notes (literal v) task = Preserves-pure _
  resolve_value-Notes (input key) task = input_of-Notes key task.input
