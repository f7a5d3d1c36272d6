-- ===== src/Runner/Approval.antt =====
-- Nothing is committed without an approval, and nothing is opened outside the allowed domains.
use smart_form.Base.{String, ◌≡◌, refl, ◌⊎◌, inl, inr, true, false, List, [], ◌∷◌, arith, All}
use smart_form.Contracts.Task.{TaskDefinition, is_write, read}
use smart_form.Contracts.Program.{CapabilityStep}
use smart_form.Runner.{
  Page, Call, SubmissionApprovalRequest, is_url_allowed, is_commit_selector, went, clicked, filled,
  selected, pressed, waited, counted, read_from, asked, approved,
}
use smart_form.Runner.Steps.{run_program, starting}
use smart_form.Runner.Keeps.{Keeps}
use smart_form.Runner.Keeps.Program.{run_program-Notes}

-- A write task had just asked for a submission by this selector, and the gate had agreed.
pub record WasApproved (task : TaskDefinition) (selector : String) (log : List Call) : Type 0 where
  pub request : SubmissionApprovalRequest
  pub earlier : List Call
  pub just_approved : log ≡ approved request ∷ asked request ∷ earlier
  pub same_selector : request.selector ≡ selector
  pub same_task : request.task_id ≡ task.id
  pub writes : is_write task.mode ≡ true

module _ {W : Type 0} (page : Page W) (task : TaskDefinition) where
  -- What justifies a call, after those in `log`.
  abbrev pub Justified : Call → List Call → Type 0
  Justified (clicked selector) log =
      (is_commit_selector selector ≡ false) ⊎ WasApproved task selector log
  Justified (went url) log = is_url_allowed page.urls url task.site.allowed_domains ≡ true
  Justified (approved r) log = (earlier : List Call) × (log ≡ asked r ∷ earlier)
  Justified _ log = Unit {0}

  abbrev pub IsGuarded : List Call → Type 0
  IsGuarded [] = Unit {0}
  IsGuarded (c ∷ log) = Justified c log × IsGuarded log

  guards : Keeps page task (λ _. Unit {0}) IsGuarded
  guards = record {
    goes = λ url log _ inside g. (inside, g);
    clicks = λ selector log _ plain g. (inl plain, g);
    fills = λ selector text v log _ g. (tt, g);
    selects = λ selector text v log _ g. (tt, g);
    presses = λ selector key log _ g. (tt, g);
    waits = λ selector log g. (tt, g);
    counts = λ selector log g. (tt, g);
    reads = λ selector log g. (tt, g);
    asks = λ r log g. (tt, g);
    agrees = λ r keys log _ g. ((log, refl), g);
    submits = λ r keys log _ w same g. (
      inr (record {
        request = r;
        earlier = log;
        just_approved = refl;
        same_selector = refl;
        same_task = same;
        writes = w;
      }),
      g,
    );
  }

  All-trivial : (steps : List CapabilityStep) → All (λ _. Unit {0}) steps
  All-trivial [] = tt
  All-trivial (step ∷ steps) = (tt, All-trivial steps)

  -- In every execution, whatever page, gate and hooks answer and whatever throws: each click on a
  -- selector that looks like a commit comes right after the gate agreed to a submission by that
  -- selector for this task, a write task; the gate agrees only to what it was just asked; and each
  -- navigation goes to an allowed domain.
  pub run_program-IsGuarded :
      (steps : List CapabilityStep) (w : W)
      → IsGuarded (run_program page task steps 0 (starting w)).1.calls
  run_program-IsGuarded steps w =
      ((run_program-Notes page task (λ _. Unit {0}) IsGuarded guards steps 0 (All-trivial steps)).at
        (starting w) (record { fact = tt })).fact

  abbrev pub IsPlain : Call → Type 0
  IsPlain (clicked selector) = is_commit_selector selector ≡ false
  IsPlain _ = Unit {0}

  IsPlain-IsGuarded : (log : List Call) → task.mode ≡ read → IsGuarded log → All IsPlain log
  IsPlain-IsGuarded [] reading g = tt
  IsPlain-IsGuarded (clicked selector ∷ log) reading (inl plain, g) =
      (plain, IsPlain-IsGuarded log reading g)
  IsPlain-IsGuarded (clicked selector ∷ log) reading (inr a, g) = absurd (ground (arith, a.writes))
  IsPlain-IsGuarded (went url ∷ log) reading (_, g) = (tt, IsPlain-IsGuarded log reading g)
  IsPlain-IsGuarded (filled s t ∷ log) reading (_, g) = (tt, IsPlain-IsGuarded log reading g)
  IsPlain-IsGuarded (selected s t ∷ log) reading (_, g) = (tt, IsPlain-IsGuarded log reading g)
  IsPlain-IsGuarded (pressed s t ∷ log) reading (_, g) = (tt, IsPlain-IsGuarded log reading g)
  IsPlain-IsGuarded (waited s ∷ log) reading (_, g) = (tt, IsPlain-IsGuarded log reading g)
  IsPlain-IsGuarded (counted s ∷ log) reading (_, g) = (tt, IsPlain-IsGuarded log reading g)
  IsPlain-IsGuarded (read_from s ∷ log) reading (_, g) = (tt, IsPlain-IsGuarded log reading g)
  IsPlain-IsGuarded (asked r ∷ log) reading (_, g) = (tt, IsPlain-IsGuarded log reading g)
  IsPlain-IsGuarded (approved r ∷ log) reading (_, g) = (tt, IsPlain-IsGuarded log reading g)

  -- A read task clicks on no selector that looks like a commit, whatever its program.
  pub read_task-IsPlain :
      (steps : List CapabilityStep) (w : W)
      → task.mode ≡ read
      → All IsPlain (run_program page task steps 0 (starting w)).1.calls
  read_task-IsPlain steps w reading = IsPlain-IsGuarded _ reading (run_program-IsGuarded steps w)
