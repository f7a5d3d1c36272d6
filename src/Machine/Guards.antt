-- ===== src/Machine/Guards.antt =====
-- Which events lead into the states that matter: a submission and the end of a task.
use smart_form.Base.{String, ◌≡◌, ◌≢◌, ◌⊎◌, arith}
use smart_form.Machine.{
  TaskState, TaskEvent, Machine, after, send, waiting_approval_submit, submitting, submit_failed,
  replaying, publishing, succeeded, cancelled, failed, approve_submit, cancel, fail, submit_success,
  publish_done, submit_fail,
}

-- The machine that `send` leaves behind is that of its two steps.
pub send-after : (m : Machine) (e : TaskEvent) → (send m e).0 ≡ after m e
unfolding send
send-after m e = ground arith

-- A step into SUBMITTING starts in WAITING_APPROVAL_SUBMIT, by APPROVE_SUBMIT, or in SUBMITTING.
pub after-submitting :
    (m : Machine) (e : TaskEvent)
    → (after m e).current_state ≡ submitting
    → (m.current_state ≡ submitting)
      ⊎ ((m.current_state ≡ waiting_approval_submit) × (e ≡ approve_submit))
unfolding after
after-submitting m e h = ground arith

-- A step into SUCCEEDED reports a submission that went through or a published capability.
pub after-succeeded :
    (m : Machine) (e : TaskEvent)
    → (after m e).current_state ≡ succeeded
    → (m.current_state ≡ succeeded)
      ⊎ ((m.current_state ≡ submitting) × (e ≡ submit_success))
      ⊎ ((m.current_state ≡ replaying) × (e ≡ publish_done))
unfolding after
after-succeeded m e h = ground arith

-- While a submission is under way, only its own result or a failure moves the machine.
pub after_of_submitting :
    (m : Machine) (e : TaskEvent)
    → m.current_state ≡ submitting
    → ((e ≡ submit_success) × ((after m e).current_state ≡ succeeded))
      ⊎ ((error : String) × (e ≡ submit_fail error) × ((after m e).current_state ≡ submit_failed))
      ⊎ ((error : String) × (e ≡ fail error) × ((after m e).current_state ≡ failed))
      ⊎ (after m e ≡ m)
unfolding after
after_of_submitting m e h = ground arith

abbrev pub IsTerminal : TaskState → Type 0
IsTerminal s = (s ≡ succeeded) ⊎ (s ≡ failed) ⊎ (s ≡ cancelled)

-- A finished task moves only by CANCEL or FAIL, and then it stays finished.
pub after_of_IsTerminal :
    (m : Machine) (e : TaskEvent)
    → IsTerminal m.current_state
    → ((e ≡ cancel) × ((after m e).current_state ≡ cancelled))
      ⊎ ((error : String) × (e ≡ fail error) × ((after m e).current_state ≡ failed))
      ⊎ (after m e ≡ m)
unfolding after
after_of_IsTerminal m e h = ground arith

-- No event leads to PUBLISHING.
pub after-ne-publishing :
    (m : Machine) (e : TaskEvent)
    → m.current_state ≢ publishing
    → (after m e).current_state ≢ publishing
unfolding after
after-ne-publishing m e h = ground arith

pub mode-after : (m : Machine) (e : TaskEvent) → (after m e).context.mode ≡ m.context.mode
unfolding after
mode-after m e = ground arith
