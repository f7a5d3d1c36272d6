-- ===== src/Executor/Queue.antt =====
-- The queue of task-orchestrator.ts in front of the executor, and all that can happen to the two.
use smart_form.Base.{
  String, Bool, true, false, not, ◌&&◌, List, [], ◌∷◌, ◌++◌, nat_eq, if◌then◌else◌,
}
use smart_form.Executor.{
  Phase, stepping, RunnerExecutor, ExecutorInput, Move, ask, move, pause, drain, cancel, execute,
  decide_submission, settle_event,
}

-- The call of the executor that an operation of the queue makes; REQUEST_TAKEOVER is a pause and a
-- drain. An operation that makes none is `other`.
pub data Job : Type 0 where
  pausing draining cancelling resuming other : Job
  starting : ExecutorInput → Job
  deciding : Bool → String → Job
  emitting : String → Job

-- The queue serves one operation at a time; `blocked` while the first awaits the idle executor.
pub record System : Type 0 where
  pub executor : RunnerExecutor
  pub jobs : List Job
  pub blocked : Bool

abbrev pub again : ExecutorInput
again = record { is_resume = true; has_artifact = true; is_valid = true }

-- `sent` is whether the event of an `emitting` operation goes out.
unfoldable pub call : Job → Bool → RunnerExecutor → RunnerExecutor
unfolding pause drain cancel execute decide_submission settle_event
call pausing sent e = pause e
call draining sent e = drain e
call cancelling sent e = cancel e
call resuming sent e = (execute again e).1
call other sent e = e
call (starting input) sent e = (execute input e).1
call (deciding outcome id) sent e = (decide_submission outcome id e).1
call (emitting id) sent e = settle_event id sent e

abbrev pub waits : Job → RunnerExecutor → Bool
waits pausing e = not e.idle
waits draining e = not e.idle
waits j e = false

unfoldable pub serve_first : List Job → Bool → System → System
serve_first [] sent s = s
serve_first (j ∷ js) sent s =
    if waits j s.executor
    then record s { executor = call j sent s.executor; blocked = true }
    else record s { executor = call j sent s.executor; jobs = js }

unfoldable pub serve : Bool → System → System
unfolding serve_first
serve sent s = if s.blocked then s else serve_first s.jobs sent s

abbrev pub tail : List Job → List Job
tail [] = []
tail (j ∷ js) = js

-- A move, the event that it enqueues, and the operation that it lets go on.
abbrev pub asked : Move → Phase → List Job
asked (ask id) stepping = emitting id ∷ []
asked m p = []

unfoldable pub run_move : Move → System → System
unfolding move
run_move m s =
    let e = move m s.executor in
    let jobs = s.jobs ++ asked m s.executor.phase in
    if s.blocked && nat_eq e.idle_waiters 0
    then record { executor = e; jobs = tail jobs; blocked = false }
    else record { executor = e; jobs = jobs; blocked = s.blocked }

pub data Event : Type 0 where
  arrives : Job → Event
  served : Bool → Event
  moves : Move → Event

unfoldable pub happen : Event → System → System
unfolding serve run_move
happen (arrives j) s = record s { jobs = s.jobs ++ j ∷ [] }
happen (served sent) s = serve sent s
happen (moves m) s = run_move m s

unfoldable pub happen_all : List Event → System → System
unfolding happen
happen_all [] s = s
happen_all (e ∷ es) s = happen_all es (happen e s)

abbrev pub arrivals : List Event → List Job
arrivals [] = []
arrivals (arrives j ∷ es) = j ∷ arrivals es
arrivals (e ∷ es) = arrivals es
