-- ===== src/Machine/Traces.antt =====
-- What holds of the machine over every sequence of events.
use smart_form.Base.{
  String, ◌≡◌, refl, ◌≢◌, ◌⊎◌, inl, inr, List, [], ◌∷◌, ◌++◌, true, arith, Any, ap, is_some,
}
use smart_form.Contracts.Task.{read}
use smart_form.Machine.{
  TaskState-discrete, TaskEvent, Machine, InitialContext, create, after, send, send_all, exploring,
  filling, waiting_approval_submit, submitting, submit_failed, publishing, succeeded, waiting_human,
  failed, approve_submit, publish_done, start_filling, require_submit_approval, by_mode,
  is_pausable, pause, resume,
}
use smart_form.Machine.Guards.{send-after, after-submitting, after-succeeded, after-ne-publishing}

-- What the context holds in the states that need it.
pub record IsInformed (m : Machine) : Type 0 where
  pub approval :
      (m.current_state ≡ waiting_approval_submit) ⊎ (m.current_state ≡ submitting)
      → is_some m.context.submission_id ≡ true
  pub human : m.current_state ≡ waiting_human → is_some m.context.human_reason ≡ true
  pub error :
      (m.current_state ≡ failed) ⊎ (m.current_state ≡ submit_failed)
      → is_some m.context.error_msg ≡ true

create-IsInformed : (c : InitialContext) → IsInformed (create c)
unfolding create
create-IsInformed c = record {
  approval = λ h. ground arith;
  human = λ h. ground arith;
  error = λ h. ground arith;
}

after-IsInformed : (m : Machine) (e : TaskEvent) → IsInformed m → IsInformed (after m e)
unfolding after
after-IsInformed m e v = record {
  approval = λ h. ground (arith, v.approval);
  human = λ h. ground (arith, v.human);
  error = λ h. ground (arith, v.error);
}

send_all-cons :
    (m : Machine) (e : TaskEvent) (es : List TaskEvent)
    → send_all m (e ∷ es) ≡ send_all (after m e) es
unfolding send_all
send_all-cons m e es = ap (λ n. send_all n es) (send-after m e)

send_all-nil : (m : Machine) → send_all m [] ≡ m
unfolding send_all
send_all-nil m = refl

send_all-IsInformed :
    (m : Machine) (es : List TaskEvent) → IsInformed m → IsInformed (send_all m es)
send_all-IsInformed m [] v = rw (send_all-nil m) v
send_all-IsInformed m (e ∷ es) v =
    rw (send_all-cons m e es) (send_all-IsInformed (after m e) es (after-IsInformed m e v))

-- Whatever the events sent to a new machine: it has a submission id when it waits for approval of a
-- submission or submits, a reason when it waits for a human, and an error when it has failed.
pub run-IsInformed :
    (c : InitialContext) (es : List TaskEvent) → IsInformed (send_all (create c) es)
run-IsInformed c es = send_all-IsInformed (create c) es (create-IsInformed c)

-- A machine that was not submitting and now is was sent APPROVE_SUBMIT while it waited for the
-- approval of a submission.
pub submitting_needs_approval :
    (m : Machine) (es : List TaskEvent)
    → m.current_state ≢ submitting
    → (send_all m es).current_state ≡ submitting
    → (pre : List TaskEvent) × (post : List TaskEvent) × (es ≡ pre ++ approve_submit ∷ post)
      × ((send_all m pre).current_state ≡ waiting_approval_submit)
unfolding send_all
submitting_needs_approval m [] h k = absurd (h k)
submitting_needs_approval m (e ∷ es) h k =
    elim (TaskState-discrete (send m e).0.current_state submitting) [
      | no later ↦
          let (pre, post, split, waiting) = submitting_needs_approval (send m e).0 es later k in
          (e ∷ pre, post, ap (λ (l : List TaskEvent). e ∷ l) split, waiting)
      | yes now ↦ elim (after-submitting m e (rw (send-after m e) at now)) [
        | inl already ↦ absurd (h already)
        | inr (waiting, approve) ↦ ([], es, ap (λ (x : TaskEvent). x ∷ es) approve, waiting)
      ]
    ]

-- A machine that has not succeeded and is not submitting reaches SUCCEEDED only through an
-- APPROVE_SUBMIT or a PUBLISH_DONE among the events.
pub succeeded_needs_cause :
    (m : Machine) (es : List TaskEvent)
    → m.current_state ≢ succeeded
    → m.current_state ≢ submitting
    → (send_all m es).current_state ≡ succeeded
    → Any (λ e. e ≡ approve_submit) es ⊎ Any (λ e. e ≡ publish_done) es
succeeded_needs_cause m [] h n k = absurd (h (rw (send_all-nil m) at k))
succeeded_needs_cause m (e ∷ es) h n k =
    elim (TaskState-discrete (after m e).current_state submitting) [
      | yes now ↦ ground (arith, after-submitting m e now)
      | no calm ↦ elim (TaskState-discrete (after m e).current_state succeeded) [
        | yes done ↦ ground (arith, after-succeeded m e done)
        | no open_yet ↦ ground (
          arith,
          succeeded_needs_cause (after m e) es open_yet calm (rw (send_all-cons m e es) at k),
        )
      ]
    ]

-- No run of a machine that is not in PUBLISHING reaches PUBLISHING.
pub run-ne-publishing :
    (m : Machine) (es : List TaskEvent)
    → m.current_state ≢ publishing
    → (send_all m es).current_state ≢ publishing
run-ne-publishing m [] h = rw (send_all-nil m) h
run-ne-publishing m (e ∷ es) h =
    rw (send_all-cons m e es) (run-ne-publishing (after m e) es (after-ne-publishing m e h))

submitting_steps :
    (m : Machine) (id : String)
    → m.current_state ≡ exploring
    → m.context.mode ≡ read
    → let m' = after (after (after m start_filling) (require_submit_approval id)) approve_submit in
      (m'.current_state ≡ submitting) × (m'.context.mode ≡ read)
unfolding after
submitting_steps m id s r = ground arith

pause_resume_steps :
    (m : Machine)
    → is_pausable m.current_state ≡ true
    → after (after m pause) resume
      ≡ record m { current_state = by_mode m.context.mode filling exploring }
unfolding after
pause_resume_steps m h = ground arith

-- A machine in read mode that explores can be led to SUBMITTING, by START_FILLING, a request for
-- approval and APPROVE_SUBMIT, and it is still in read mode there.
pub read_mode_submits :
    (m : Machine) (id : String)
    → m.current_state ≡ exploring
    → m.context.mode ≡ read
    → let m' = send_all m (start_filling ∷ require_submit_approval id ∷ approve_submit ∷ []) in
      (m'.current_state ≡ submitting) × (m'.context.mode ≡ read)
read_mode_submits m id s r = simp (send_all-cons, send_all-nil) (submitting_steps m id s r)

-- PAUSE and then RESUME lead a machine that can be paused to the start of its mode's work, whatever
-- the state it was paused in, and leave the context and the listeners alone.
pub pause_resume :
    (m : Machine)
    → is_pausable m.current_state ≡ true
    → send_all m (pause ∷ resume ∷ [])
      ≡ record m { current_state = by_mode m.context.mode filling exploring }
pause_resume m h = simp (send_all-cons, send_all-nil) (pause_resume_steps m h)
