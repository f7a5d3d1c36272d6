-- ===== src/Executor.antt =====
-- apps/desktop/src/agent/runner-executor.ts and the program runner that it drives. What stands between
-- two awaits is one move; a promise that is awaited is a phase.
pub mod Queue
pub mod Invariant
pub mod Deadlock
pub mod Paused
mod Tests
use smart_form.Base.{
  ℕ, suc, ◌+◌, String, Bool, true, false, not, ◌&&◌, List, [], ◌∷◌, ◌++◌, ◌==◌, nat_eq, any,
  if◌then◌else◌, text_concat,
}
use smart_form.Base.Exec.{Exec, pure, throw, gets, put_state, ◌>>=◌, ◌>>◌, require}
use smart_form.Contracts.Artifact.{Failure, error}

-- Where the execution is: there is none; it is before its next step; `beforeStep` waits for `resume`,
-- or was resumed; in a step; in a step that awaits the event about its submission, got it, awaits the
-- approval, or got the answer.
pub data Phase : Type 0 where
  off boundary held released stepping : Phase
  asking emitted waiting : String → Phase
  answered : String → Bool → Phase

-- `idle_waiters` is the number of promises of `pause` and `drain` that are not resolved.
pub record RunnerExecutor : Type 0 where
  pub paused : Bool
  pub cancelled : Bool
  pub idle : Bool
  pub idle_waiters : ℕ
  pub approvals : List String
  pub phase : Phase

abbrev pub created : RunnerExecutor
created = record {
  paused = false;
  cancelled = false;
  idle = true;
  idle_waiters = 0;
  approvals = [];
  phase = off;
}

abbrev pub R : Type 0 → Type 0
R = Exec Failure RunnerExecutor

abbrev is_off : Phase → Bool
is_off off = true
is_off _ = false

abbrev wake : Phase → Phase
wake held = released
wake p = p

unfoldable pub resume : RunnerExecutor → RunnerExecutor
resume e = record e { paused = false; phase = wake e.phase }

-- The approvals resolve what the execution awaits.
abbrev answer : String → Bool → Phase → Phase
answer id outcome (waiting j) = if id == j then answered j outcome else waiting j
answer id outcome p = p

abbrev answer_all : List String → Phase → Phase
answer_all [] p = p
answer_all (id ∷ ids) p = answer_all ids (answer id false p)

-- What an input of `execute` has: an artifact, and one that the validation accepts.
pub record ExecutorInput : Type 0 where
  pub is_resume : Bool
  pub has_artifact : Bool
  pub is_valid : Bool

-- `run` up to its first step. An error here leaves no execution.
unfoldable pub begin_run : ExecutorInput → R Unit
begin_run input = do
  require input.has_artifact (error "Runner requires a verified capability artifact")
  put_state (λ e. record e { cancelled = false })
  require input.is_valid (error "Capability bundle is invalid")
  put_state (λ e. record e { phase = boundary })

unfoldable pub execute : ExecutorInput → R Unit
unfolding resume begin_run
execute input =
    if input.is_resume
    then (do
      put_state resume
      none_left ← gets (λ e. is_off e.phase)
      require (not none_left) (error "Runner has no paused execution to resume"))
    else (do
      free ← gets (λ e. is_off e.phase)
      require free (error "Runner already has an active execution")
      begin_run input)

-- The `finally` of `run`; nothing awaits an approval by then.
unfoldable pub finish : RunnerExecutor → RunnerExecutor
finish e = record e { idle = true; idle_waiters = 0; approvals = []; phase = off }

-- The end of `pause` and `drain`.
abbrev await_idle : RunnerExecutor → RunnerExecutor
await_idle e = if e.idle then e else record e { idle_waiters = suc e.idle_waiters }

unfoldable pub drain : RunnerExecutor → RunnerExecutor
drain e = await_idle e

unfoldable pub pause : RunnerExecutor → RunnerExecutor
pause e = await_idle (record e { paused = true })

unfoldable pub cancel : RunnerExecutor → RunnerExecutor
unfolding resume
cancel e =
    let e' = resume (record e { cancelled = true }) in
    record e' { approvals = []; phase = answer_all e'.approvals e'.phase }

abbrev without : String → List String → List String
without id [] = []
without id (j ∷ js) = let rest = without id js in if id == j then rest else j ∷ rest

-- `approveSubmission` and `rejectSubmission`.
unfoldable pub decide_submission : Bool → String → R Unit
decide_submission outcome id = do
  pending ← gets (λ e. any (λ j. id == j) e.approvals)
  require pending (error (text_concat "Submission is not waiting for approval: " id))
  put_state
      (λ e. record e { approvals = without id e.approvals; phase = answer id outcome e.phase })

-- What the runner does next: a step begins, is asked about or ends, the approval is awaited, its
-- answer is taken, a step fails, or the program is over. What is not next changes nothing.
pub data Move : Type 0 where
  begin end_step register proceed fail complete : Move
  ask : String → Move

-- `beforeStep` after its waits.
abbrev enter : RunnerExecutor → RunnerExecutor
enter e = if e.cancelled then finish e else record e { idle = false; phase = stepping }

abbrev before_step : RunnerExecutor → RunnerExecutor
before_step e =
    if e.cancelled then finish e else if e.paused then record e { phase = held } else enter e

abbrev after_step : RunnerExecutor → RunnerExecutor
after_step e = record e { idle = true; idle_waiters = 0; phase = boundary }

unfoldable pub move_at : Phase → Move → RunnerExecutor → RunnerExecutor
unfolding finish
move_at boundary begin e = before_step e
move_at boundary complete e = finish e
move_at released begin e = enter e
move_at stepping end_step e = after_step e
move_at stepping fail e = finish e
move_at stepping (ask id) e = record e { phase = asking id }
move_at (emitted id) register e = record e {
  approvals = without id e.approvals ++ id ∷ [];
  phase = waiting id;
}
move_at (answered id true) proceed e = record e { phase = stepping }
move_at (answered id false) proceed e = finish e
move_at p m e = e

unfoldable pub move : Move → RunnerExecutor → RunnerExecutor
unfolding move_at
move m e = move_at e.phase m e

-- The promise of `emitEvent` settles.
abbrev settle_at : Phase → String → Bool → RunnerExecutor → RunnerExecutor
settle_at (asking j) id sent e =
    if id == j then (if sent then record e { phase = emitted j } else finish e) else e
settle_at p id sent e = e

unfoldable pub settle_event : String → Bool → RunnerExecutor → RunnerExecutor
settle_event id sent e = settle_at e.phase id sent e
