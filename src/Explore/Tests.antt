-- ===== src/Explore/Tests.antt =====
-- A trace with a password, and what becomes of it.
use smart_form.Base.{String, ◌≡◌, refl, false, none, some, List, [], ◌∷◌, any, includes, inl, inr}
use smart_form.Base.Exec.{ok}
use smart_form.Contracts.Task.{Scalar}
use smart_form.Contracts.Program.{CapabilityStep, CapabilityValue}
use smart_form.Contracts.Program
use smart_form.Explore.{
  TraceStep, ActionTrace, fill, is_secret, normalize, compile_to_program, compile_steps,
}
use smart_form.Explore.Secrets.{SameButSecrets, compile-normalize, normalize-SameButSecrets}

abbrev typed : String → String → String → TraceStep
typed label selector value = record {
  step_id = "s1";
  action_type = fill;
  target = some (record {
    role = none;
    label = some label;
    text = none;
    test_id = none;
    selector = some selector;
  });
  value = some value;
  url = none;
  field_id = none;
  confidence = "1";
  timestamp = 0;
}

abbrev trace_of : List TraceStep → ActionTrace
trace_of steps = record {
  trace_version = "1";
  task_id = "t1";
  target_url = "https://forms.example.com";
  steps = steps;
  created_at = 0;
}

abbrev login : List TraceStep
login = typed "姓名" "#name" "A" ∷ typed "姓名" "#name" "Alice" ∷ typed "密码" "#password" "x" ∷ []

abbrev form : List TraceStep
form = typed "姓名" "#name" "A" ∷ typed "姓名" "#name" "Alice" ∷ []

abbrev program : List CapabilityStep
program = Program.fill "#name" (CapabilityValue.literal (Scalar.text "Alice")) ∷ []

compiled : (compile_to_program (normalize (trace_of form)) tt).0 ≡ ok program
unfolding compile_steps normalize is_secret includes
compiled = refl

compile-normalize_example : any is_secret form ≡ false
compile-normalize_example = compile-normalize (trace_of form) tt program compiled

abbrev other_login : List TraceStep
other_login = typed "姓名" "#name" "A" ∷ typed "姓名" "#name" "Alice" ∷ typed "密码" "#password" "y" ∷ []

same_login : SameButSecrets login other_login
unfolding is_secret includes
same_login = (inl refl, (inl refl, (inr (refl, (some "y", refl)), tt)))

normalize-SameButSecrets_example : normalize (trace_of other_login) ≡ normalize (trace_of login)
normalize-SameButSecrets_example = normalize-SameButSecrets (trace_of login) other_login same_login
