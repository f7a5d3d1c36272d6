-- ===== src/Runner/Reads.antt =====
-- A program without steps that write changes nothing on the page but by plain clicks and keys.
use smart_form.Base.{◌≡◌, false, List, [], ◌∷◌, arith, All, any}
use smart_form.Contracts.Task.{TaskDefinition}
use smart_form.Contracts.Program.{CapabilityStep}
use smart_form.Capability.{is_write_step}
use smart_form.Runner.{Page, Call, is_commit_selector, clicked, filled, selected, approved}
use smart_form.Runner.Steps.{run_program, starting}
use smart_form.Runner.Keeps.{Keeps}
use smart_form.Runner.Keeps.Program.{run_program-Notes}

-- Not a value put into the page, and not a commit.
abbrev pub IsReading : Call → Type 0
IsReading (filled selector text) = ⊥
IsReading (selected selector text) = ⊥
IsReading (approved r) = ⊥
IsReading (clicked selector) = is_commit_selector selector ≡ false
IsReading _ = Unit {0}

module _ {W : Type 0} (page : Page W) (task : TaskDefinition) where
  reading : Keeps page task (λ step. is_write_step step ≡ false) (All IsReading)
  reading = record {
    goes = λ url log _ inside g. (tt, g);
    clicks = λ selector log _ plain g. (plain, g);
    fills = λ selector text v log no g. absurd (ground arith);
    selects = λ selector text v log no g. absurd (ground arith);
    presses = λ selector key log _ g. (tt, g);
    waits = λ selector log g. (tt, g);
    counts = λ selector log g. (tt, g);
    reads = λ selector log g. (tt, g);
    asks = λ r log g. (tt, g);
    agrees = λ r keys log no g. absurd (ground arith);
    submits = λ r keys log no w same g. absurd (ground arith);
  }

  no_writes :
      (steps : List CapabilityStep)
      → any is_write_step steps ≡ false
      → All (λ step. is_write_step step ≡ false) steps
  no_writes [] h = tt
  no_writes (step ∷ steps) h = (ground (arith, h), no_writes steps (ground (arith, h)))

  -- A program without fill, select and submit steps puts no value into the page, gets no submission
  -- approved and clicks on no selector that looks like a commit.
  pub run_program-IsReading :
      (steps : List CapabilityStep) (w : W)
      → any is_write_step steps ≡ false
      → All IsReading (run_program page task steps 0 (starting w)).1.calls
  run_program-IsReading steps w h =
      ((run_program-Notes page task (λ step. is_write_step step ≡ false) (All IsReading) reading
          steps 0 (no_writes steps h)).at
        (starting w) (record { fact = tt })).fact
