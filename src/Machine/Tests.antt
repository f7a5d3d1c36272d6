-- ===== src/Machine/Tests.antt =====
-- Concrete runs of the task state machine.
use smart_form.Base.{String, ◌≡◌, refl, ◌⊎◌, none, some, List, [], ◌∷◌, ◌++◌, Any, arith}
use smart_form.Contracts.Task.{TaskMode, write}
use smart_form.Machine.{
  TaskState, TaskState-discrete, TaskEvent, Machine, send, InitialContext, create, after, send_all,
  submitting, succeeded, cancelled, failed, waiting_approval_submit, submit_success, submit_fail,
  fail, cancel, start, plan_done, match_success, require_submit_approval, approve_submit,
  publish_done,
}
use smart_form.Machine.Guards.{after_of_submitting}
use smart_form.Machine.Traces.{
  IsInformed, run-IsInformed, submitting_needs_approval, succeeded_needs_cause,
}

abbrev form : InitialContext
form = record {
  task_id = "t1";
  target_url = "https://forms.example.com";
  mode = some write;
  current_step = none;
  max_steps = none;
  collected_count = none;
  submission_id = none;
  error_msg = none;
  human_reason = none;
}

abbrev to_approval : List TaskEvent
to_approval = start ∷ plan_done ∷ match_success ∷ require_submit_approval "s1" ∷ approve_submit ∷ []

abbrev in_state : TaskState → TaskMode → Machine
unfolding create
in_state s mode = record {
  current_state = s;
  context = record (create form).context { mode = mode };
  listeners = 7 ∷ [];
}

approved : (send_all (create form) to_approval).current_state ≡ submitting
unfolding send_all create send TaskState-discrete after
approved = refl

submitting_needs_approval_example :
    (pre : List TaskEvent) × (post : List TaskEvent) × (to_approval ≡ pre ++ approve_submit ∷ post)
    × ((send_all (create form) pre).current_state ≡ waiting_approval_submit)
unfolding create
submitting_needs_approval_example =
    submitting_needs_approval (create form) to_approval (λ h. ground arith) approved

run-IsInformed_example : IsInformed (send_all (create form) to_approval)
run-IsInformed_example = run-IsInformed form to_approval

after_of_submitting_example :
    let m = in_state submitting write in
    ((cancel ≡ submit_success) × ((after m cancel).current_state ≡ succeeded))
    ⊎ ((error : String) × (cancel ≡ submit_fail error)
        × ((after m cancel).current_state ≡ TaskState.submit_failed))
    ⊎ ((error : String) × (cancel ≡ fail error) × ((after m cancel).current_state ≡ failed))
    ⊎ (after m cancel ≡ m)
unfolding in_state
after_of_submitting_example = after_of_submitting (in_state submitting write) cancel refl

-- A task that has succeeded is cancelled.
cancel_of_succeeded : (after (in_state succeeded write) cancel).current_state ≡ cancelled
unfolding after in_state
cancel_of_succeeded = refl

abbrev whole_run : List TaskEvent
whole_run = to_approval ++ submit_success ∷ []

succeeds : (send_all (create form) whole_run).current_state ≡ succeeded
unfolding send_all create send TaskState-discrete after
succeeds = refl

succeeded_needs_cause_example :
    Any (λ e. e ≡ approve_submit) whole_run ⊎ Any (λ e. e ≡ publish_done) whole_run
unfolding create
succeeded_needs_cause_example =
    succeeded_needs_cause (create form) whole_run (λ h. ground arith) (λ h. ground arith) succeeds
