-- ===== src/Executor/Invariant.antt =====
-- What is always true of the executor.
use smart_form.Base.{
  String, Bool, true, false, not, ◌≡◌, refl, List, [], ◌∷◌, ◌++◌, arith, eq_refl, if◌then◌else◌,
  ◌⊎◌,
}
use smart_form.Executor.{
  Phase, off, boundary, held, released, waiting, answered, RunnerExecutor, resume, answer,
  ExecutorInput, begin_run, execute, finish, drain, pause, cancel, without, decide_submission, Move,
  move, settle_event,
}
use smart_form.Executor.Queue.{
  Job, pausing, draining, cancelling, resuming, other, starting, deciding, emitting, System, asked,
  call, waits, serve_first, serve, run_move, Event, arrives, served, moves, happen, happen_all,
  again,
}

abbrev is_cons : List Job → Bool
is_cons [] = false
is_cons (j ∷ js) = true

abbrev pub in_step : Phase → Bool
in_step off = false
in_step boundary = false
in_step held = false
in_step released = false
in_step _ = true

abbrev pub awaited : Phase → List String
awaited (waiting id) = id ∷ []
awaited _ = []

-- The executor is idle exactly between steps; nobody awaits an executor that is idle; the approvals
-- are that which the execution awaits.
pub record IsWell (e : RunnerExecutor) : Type 0 where
  pub idle : e.idle ≡ not (in_step e.phase)
  pub waiters : e.idle ≡ true → e.idle_waiters ≡ 0
  pub approvals : e.approvals ≡ awaited e.phase

finish-IsWell : (e : RunnerExecutor) → IsWell (finish e)
unfolding finish
finish-IsWell e = record { idle = refl; waiters = λ h. refl; approvals = refl }

move-IsWell : (m : Move) (e : RunnerExecutor) → IsWell e → IsWell (move m e)
unfolding move
move-IsWell m e v = ground arith

resume-IsWell : (e : RunnerExecutor) → IsWell e → IsWell (resume e)
unfolding resume
resume-IsWell e v = ground arith

drain-IsWell : (e : RunnerExecutor) → IsWell e → IsWell (drain e)
unfolding drain
drain-IsWell e v = ground arith

pause-IsWell : (e : RunnerExecutor) → IsWell e → IsWell (pause e)
unfolding pause
pause-IsWell e v = ground arith

without_self : (id : String) → without id (id ∷ []) ≡ []
without_self id = rw (eq_refl id)

answer_self : (id : String) (outcome : Bool) → answer id outcome (waiting id) ≡ answered id outcome
answer_self id outcome = rw (eq_refl id)

cancel_at : (p : Phase) (e : RunnerExecutor) → e.phase ≡ p → IsWell e → IsWell (cancel e)
unfolding cancel
cancel_at (waiting id) e h v =
    let same : answer id false (waiting id) ≡ answered id false = answer_self id false in
    ground arith
cancel_at p e h v = ground arith

cancel-IsWell : (e : RunnerExecutor) → IsWell e → IsWell (cancel e)
cancel-IsWell e v = cancel_at e.phase e refl v

settle-IsWell :
    (id : String) (sent : Bool) (e : RunnerExecutor) → IsWell e → IsWell (settle_event id sent e)
unfolding settle_event finish
settle-IsWell id sent e v = ground arith

begin-IsWell :
    (i : ExecutorInput) (e : RunnerExecutor) → IsWell e → e.phase ≡ off → IsWell (begin_run i e).1
unfolding begin_run
begin-IsWell i e v h = ground arith

execute-IsWell : (i : ExecutorInput) (e : RunnerExecutor) → IsWell e → IsWell (execute i e).1
unfolding execute resume begin_run
execute-IsWell i e v = ground arith

decide-IsWell :
    (outcome : Bool) (id : String) (e : RunnerExecutor)
    → IsWell e
    → IsWell (decide_submission outcome id e).1
unfolding decide_submission
decide-IsWell outcome id e v = decide_at e.phase refl
  where
    decide_at : (p : Phase) → e.phase ≡ p → IsWell (decide_submission outcome id e).1
    decide_at (waiting j) h = ground arith
    decide_at p h = ground arith

call-IsWell : (j : Job) (sent : Bool) (e : RunnerExecutor) → IsWell e → IsWell (call j sent e)
unfolding call
call-IsWell pausing sent e v = pause-IsWell e v
call-IsWell draining sent e v = drain-IsWell e v
call-IsWell cancelling sent e v = cancel-IsWell e v
call-IsWell resuming sent e v = execute-IsWell again e v
call-IsWell other sent e v = v
call-IsWell (starting i) sent e v = execute-IsWell i e v
call-IsWell (deciding outcome id) sent e v = decide-IsWell outcome id e v
call-IsWell (emitting id) sent e v = settle-IsWell id sent e v

-- The queue is blocked exactly while its first operation has a promise of the executor open.
pub record IsOrderly (s : System) : Type 0 where
  pub executor : IsWell s.executor
  pub waiters : s.executor.idle_waiters ≡ (if s.blocked then 1 else 0)
  pub first : s.blocked ≡ true → is_cons s.jobs ≡ true

call_no_wait :
    (j : Job) (sent : Bool) (e : RunnerExecutor)
    → waits j e ≡ false
    → e.idle_waiters ≡ 0
    → (call j sent e).idle_waiters ≡ 0
unfolding call pause drain cancel execute decide_submission settle_event finish
call_no_wait pausing sent e h g = ground arith
call_no_wait draining sent e h g = ground arith
call_no_wait cancelling sent e h g = ground arith
call_no_wait resuming sent e h g = ground arith
call_no_wait other sent e h g = ground arith
call_no_wait (starting i) sent e h g = ground arith
call_no_wait (deciding outcome id) sent e h g = ground arith
call_no_wait (emitting id) sent e h g = ground arith

call_wait :
    (j : Job) (sent : Bool) (e : RunnerExecutor)
    → waits j e ≡ true
    → e.idle_waiters ≡ 0
    → (call j sent e).idle_waiters ≡ 1
unfolding call pause drain
call_wait j sent e h g = ground arith

serve_first-IsOrderly :
    (js : List Job) (sent : Bool) (s : System)
    → s.jobs ≡ js
    → s.blocked ≡ false
    → IsOrderly s
    → IsOrderly (serve_first js sent s)
unfolding serve_first
serve_first-IsOrderly [] sent s h b v = v
serve_first-IsOrderly (j ∷ js) sent s h b v =
    let well = call-IsWell j sent s.executor v.executor in
    let no_wait = call_no_wait j sent s.executor in
    let wait = call_wait j sent s.executor in ground arith

serve-IsOrderly : (sent : Bool) (s : System) → IsOrderly s → IsOrderly (serve sent s)
unfolding serve
serve-IsOrderly sent s v = let served = serve_first-IsOrderly s.jobs sent s refl in ground arith

move_waiters :
    (m : Move) (e : RunnerExecutor)
    → (move m e).idle_waiters ≡ 0 ⊎ (move m e).idle_waiters ≡ e.idle_waiters
unfolding move finish
move_waiters m e = ground arith

is_cons-append : (js ks : List Job) → is_cons js ≡ true → is_cons (js ++ ks) ≡ true
is_cons-append js ks h = ground arith

run_move-IsOrderly : (m : Move) (s : System) → IsOrderly s → IsOrderly (run_move m s)
unfolding run_move
run_move-IsOrderly m s v =
    let well = move-IsWell m s.executor v.executor in
    let waiters = move_waiters m s.executor in
    let more = is_cons-append s.jobs (asked m s.executor.phase) in ground arith

happen-IsOrderly : (v : Event) (s : System) → IsOrderly s → IsOrderly (happen v s)
unfolding happen
happen-IsOrderly (arrives j) s w = let more = is_cons-append s.jobs (j ∷ []) in ground arith
happen-IsOrderly (served sent) s w = serve-IsOrderly sent s w
happen-IsOrderly (moves m) s w = run_move-IsOrderly m s w

-- Whatever arrives, is served and runs, in any order: the executor is idle exactly while no step
-- runs, the approvals it holds are exactly the one its execution awaits, and the queue is blocked
-- exactly while one promise of `pause` or `drain` is open.
pub happen_all-IsOrderly :
    (es : List Event) (s : System) → IsOrderly s → IsOrderly (happen_all es s)
unfolding happen_all
happen_all-IsOrderly [] s w = w
happen_all-IsOrderly (e ∷ es) s w = happen_all-IsOrderly es (happen e s) (happen-IsOrderly e s w)
