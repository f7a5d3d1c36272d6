-- ===== src/Executor/Tests.antt =====
-- Concrete runs of the program runner's executor and its queue.
use smart_form.Base.{true, false, ◌≡◌, refl, arith, List, [], ◌∷◌}
use smart_form.Base.Exec.{ok}
use smart_form.Executor.{
  boundary, held, waiting, RunnerExecutor, ExecutorInput, created, execute, begin, end_step,
  register, complete, ask, move,
}
use smart_form.Executor.Queue.{
  Job, pausing, resuming, starting, deciding, emitting, cancelling, System, Event, arrives, served,
  moves, happen_all, arrivals,
}
use smart_form.Executor.Invariant.{IsOrderly, happen_all-IsOrderly}
use smart_form.Executor.Deadlock.{with_jobs, happen_all_stuck}
use smart_form.Executor.Paused.{IsPaused, happen_all-IsPaused, pause_outlives}

abbrev fresh : ExecutorInput
fresh = record { is_resume = false; has_artifact = true; is_valid = true }

abbrev at_rest : System
at_rest = record { executor = created; jobs = []; blocked = false }

-- A task starts, a step asks for the approval of "s1", and a pause arrives before the approval.
abbrev story : List Event
story =
    arrives (starting fresh)
    ∷ served true
    ∷ moves begin
    ∷ moves (ask "s1")
    ∷ served true
    ∷ moves register
    ∷ arrives pausing
    ∷ served true
    ∷ []

abbrev deadlocked : System
deadlocked = record {
  executor = record created {
    idle = false;
    idle_waiters = 1;
    paused = true;
    approvals = "s1" ∷ [];
    phase = waiting "s1";
  };
  jobs = pausing ∷ [];
  blocked = true;
}

story_blocks : happen_all story at_rest ≡ deadlocked
unfolding happen_all smart_form.Executor.Queue.call
story_blocks = refl

-- Without the pause, the approval lets the step end and the program complete.
story_ends :
    (happen_all
      (moves (ask "s1")
        ∷ served true
        ∷ moves register
        ∷ arrives (deciding true "s1")
        ∷ served true
        ∷ [])
      (happen_all
        (arrives (starting fresh) ∷ served true ∷ moves begin ∷ [])
        at_rest)).executor.approvals
    ≡ []
unfolding happen_all smart_form.Executor.Queue.call
story_ends = refl

happen_all-IsOrderly_example : IsOrderly (happen_all story at_rest)
happen_all-IsOrderly_example = happen_all-IsOrderly story at_rest (record {
  executor = record { idle = refl; waiters = λ h. refl; approvals = refl };
  waiters = refl;
  first = λ h. ground arith;
})

abbrev late : List Event
late = arrives (deciding true "s1") ∷ arrives cancelling ∷ served true ∷ moves end_step ∷ []

happen_all_stuck_example : happen_all late deadlocked ≡ with_jobs (arrivals late) deadlocked
happen_all_stuck_example =
    happen_all_stuck late deadlocked (record { blocked = refl; waiter = refl; needs = refl })

abbrev paused : System
paused = record {
  executor = record created { paused = true; phase = boundary };
  jobs = pausing ∷ [];
  blocked = false;
}

abbrev harmless : List Event
harmless = served true ∷ moves begin ∷ arrives (starting fresh) ∷ served true ∷ moves begin ∷ []

happen_all-IsPaused_example : IsPaused (happen_all harmless paused).executor
happen_all-IsPaused_example =
    happen_all-IsPaused harmless paused
      (record { paused = refl; rests = refl; idle = refl; approvals = refl }) refl refl

pause_outlives_example :
    (execute fresh (move complete paused.executor)).0 ≡ ok tt
    × (move begin (execute fresh (move complete paused.executor)).1).phase ≡ held
pause_outlives_example = pause_outlives paused.executor fresh refl refl refl refl refl
