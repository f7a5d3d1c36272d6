-- ===== src/Runner/Tests.antt =====
-- A page that answers at once.
use smart_form.Base.{◌≡◌, refl, true, false, none, some, List, [], ◌∷◌, matches_word}
use smart_form.Base.Exec.{pure}
use smart_form.Contracts.Task.{TaskDefinition, TaskMode, collect, write, jsonl, local}
use smart_form.Contracts.Program.{CapabilityStep, navigate, click, submit}
use smart_form.Runner.{Page, is_commit_selector}
use smart_form.Runner.Steps.{run_program, starting}
use smart_form.Runner.Approval.{IsGuarded, run_program-IsGuarded}

abbrev pub page : Page (Unit {0})
page = record {
  urls = record { hostname = λ text. some text; lower = λ text. text };
  url = λ w. "forms.example.com";
  goto = λ url. pure tt;
  click = λ selector. pure tt;
  fill = λ selector text. pure tt;
  select_option = λ selector text. pure tt;
  press = λ selector key. pure tt;
  wait_for = λ selector state. pure tt;
  count = λ selector. pure 2;
  text_content = λ root selector. pure (some " A-1 ");
  input_value = λ root selector. pure "";
  get_attribute = λ root selector name. pure none;
  request_approval = λ request. pure true;
  before_step = λ step index. pure tt;
  after_step = λ step index. pure tt;
  uuid = pure "s1";
}

abbrev pub orders : TaskMode → TaskDefinition
orders mode = record {
  id = "t1";
  tenant_id = "tenant";
  workspace_id = "w1";
  title = "Orders";
  description = "";
  task_type = collect;
  mode = mode;
  site = record {
    entry_url = "forms.example.com";
    allowed_domains = "forms.example.com" ∷ [];
    module_hint = none;
  };
  entity = "order";
  fields = [];
  scope = none;
  pagination = none;
  output = record { format = jsonl; destination = local };
  input = none;
  budget = record {
    max_steps = 100;
    step_timeout_ms = 1;
    total_timeout_ms = 1;
    max_cost_usd = "1";
  };
  created_at = "2026-07-31T00:00:00.000Z";
  updated_at = "2026-07-31T00:00:00.000Z";
}

abbrev sends : List CapabilityStep
sends = click "#next" ∷ submit "#send" [] ∷ []

run_program-IsGuarded_example :
    IsGuarded page (orders write) (run_program page (orders write) sends 0 (starting tt)).1.calls
run_program-IsGuarded_example = run_program-IsGuarded page (orders write) sends tt

abbrev collects : List CapabilityStep
collects = click "#next" ∷ navigate "forms.example.com" ∷ []

commit_selectors :
    (is_commit_selector "#commit-order" ≡ false)
    × (is_commit_selector "button.SUBMIT" ≡ true)
    × (is_commit_selector "text=提交" ≡ true)
unfolding is_commit_selector matches_word
commit_selectors = (refl, refl, refl)
