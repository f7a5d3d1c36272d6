-- ===== src/Executor/Paused.antt =====
-- What `paused` keeps from running.
use smart_form.Base.{Bool, true, false, not, ◌&&◌, ◌≡◌, refl, List, [], ◌∷◌, ◌++◌, arith}
use smart_form.Base.Exec.{ok}
use smart_form.Executor.{
  Phase, off, boundary, held, RunnerExecutor, ExecutorInput, execute, begin_run, Move, begin,
  complete, move, finish, pause, drain, cancel, decide_submission, settle_event,
}
use smart_form.Executor.Queue.{
  Job, cancelling, resuming, other, starting, deciding, emitting, System, call, serve, run_move,
  asked, Event, arrives, served, moves, happen, happen_all, arrivals, tail, serve_first,
}

-- An operation that takes the pause back: a cancellation and what resumes.
abbrev pub wakes : Job → Bool
wakes cancelling = true
wakes resuming = true
wakes (starting i) = i.is_resume
wakes j = false

abbrev rests : Phase → Bool
rests off = true
rests boundary = true
rests held = true
rests _ = false

-- The pause is in force: no step runs.
pub record IsPaused (e : RunnerExecutor) : Type 0 where
  pub paused : e.paused ≡ true
  pub rests : rests e.phase ≡ true
  pub idle : e.idle ≡ true
  pub approvals : e.approvals ≡ []

move-IsPaused : (m : Move) (e : RunnerExecutor) → IsPaused e → IsPaused (move m e)
unfolding move finish
move-IsPaused m e p = ground arith

-- What the queue may do without taking the pause back.
call-IsPaused :
    (j : Job) (sent : Bool) (e : RunnerExecutor)
    → wakes j ≡ false
    → IsPaused e
    → IsPaused (call j sent e)
unfolding call pause drain cancel execute begin_run decide_submission settle_event
call-IsPaused other sent e h p = p
call-IsPaused (starting i) sent e h p = ground arith
call-IsPaused (deciding outcome id) sent e h p = ground arith
call-IsPaused (emitting id) sent e h p = ground arith
call-IsPaused j sent e h p = ground arith

-- No operation of the list takes the pause back.
abbrev pub none_wake : List Job → Bool
none_wake [] = true
none_wake (j ∷ js) = not (wakes j) && none_wake js

none_wake-append :
    (js ks : List Job) → none_wake js ≡ true → none_wake ks ≡ true → none_wake (js ++ ks) ≡ true
none_wake-append [] ks h g = g
none_wake-append (j ∷ js) ks h g = let rest = none_wake-append js ks in ground arith

record Keeps (s : System) : Type 0 where
  executor : IsPaused s.executor
  jobs : none_wake s.jobs ≡ true

serve_first-Keeps :
    (js : List Job) (sent : Bool) (s : System)
    → s.jobs ≡ js
    → Keeps s
    → Keeps (serve_first js sent s)
unfolding serve_first
serve_first-Keeps [] sent s same k = k
serve_first-Keeps (j ∷ js) sent s same k =
    let called = call-IsPaused j sent s.executor in ground arith

serve-Keeps : (sent : Bool) (s : System) → Keeps s → Keeps (serve sent s)
unfolding serve
serve-Keeps sent s k = let first = serve_first-Keeps s.jobs sent s refl in ground arith

none_wake-tail : (js : List Job) → none_wake js ≡ true → none_wake (tail js) ≡ true
none_wake-tail js h = ground arith

asked_none : (m : Move) (e : RunnerExecutor) → IsPaused e → asked m e.phase ≡ []
asked_none m e p = ground arith

run_move-Keeps : (m : Move) (s : System) → Keeps s → Keeps (run_move m s)
unfolding run_move
run_move-Keeps m s k =
    let moved = move-IsPaused m s.executor k.executor in
    let none = asked_none m s.executor k.executor in
    let jobs = none_wake-append s.jobs [] k.jobs refl in
    let rest = none_wake-tail (s.jobs ++ []) in ground arith

happen-Keeps :
    (v : Event) (s : System) → none_wake (arrivals (v ∷ [])) ≡ true → Keeps s → Keeps (happen v s)
unfolding happen
happen-Keeps (arrives j) s h k =
    let jobs = none_wake-append s.jobs (j ∷ []) k.jobs h in ground arith
happen-Keeps (served sent) s h k = serve-Keeps sent s k
happen-Keeps (moves m) s h k = run_move-Keeps m s k

happen_all-Keeps :
    (es : List Event) (s : System)
    → none_wake (arrivals es) ≡ true
    → Keeps s
    → Keeps (happen_all es s)
unfolding happen_all
happen_all-Keeps [] s h k = k
happen_all-Keeps (arrives j ∷ es) s h k =
    happen_all-Keeps es (happen (arrives j) s) (ground arith)
      (happen-Keeps (arrives j) s (ground arith) k)
happen_all-Keeps (served sent ∷ es) s h k =
    happen_all-Keeps es (happen (served sent) s) h (happen-Keeps (served sent) s refl k)
happen_all-Keeps (moves m ∷ es) s h k =
    happen_all-Keeps es (happen (moves m) s) h (happen-Keeps (moves m) s refl k)

-- Once the pause is in force, no step begins, whatever arrives, is served and is tried in any order,
-- as long as neither the queue nor what arrives has a cancellation or a resumption: a new task, an
-- approval and a second pause included.
pub happen_all-IsPaused :
    (es : List Event) (s : System)
    → IsPaused s.executor
    → none_wake s.jobs ≡ true
    → none_wake (arrivals es) ≡ true
    → IsPaused (happen_all es s).executor
happen_all-IsPaused es s p h g =
    (happen_all-Keeps es s g (record { executor = p; jobs = h })).executor

-- `paused` outlives the execution: when the program is over while the pause is in force, the next task
-- starts without an error, and is held before its first step.
pub pause_outlives :
    (e : RunnerExecutor) (i : ExecutorInput)
    → e.paused ≡ true
    → e.phase ≡ boundary
    → i.is_resume ≡ false
    → i.has_artifact ≡ true
    → i.is_valid ≡ true
    → (execute i (move complete e)).0 ≡ ok tt
      × (move begin (execute i (move complete e)).1).phase ≡ held
unfolding execute move begin_run finish
pause_outlives e i p b r a v = ground arith
