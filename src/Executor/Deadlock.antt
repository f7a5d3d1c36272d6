-- ===== src/Executor/Deadlock.antt =====
-- The queue of commands and the executor that wait for each other.
use smart_form.Base.{
  Bool, true, false, ◌≡◌, ◌∙◌, sym, ap, append_assoc, append-nil, nat_eq, List, [], ◌∷◌, ◌++◌,
  arith,
}
use smart_form.Executor.{Phase, asking, waiting, RunnerExecutor, Move, move}
use smart_form.Executor.Queue.{
  Job, System, serve, run_move, asked, Event, arrives, served, moves, happen, happen_all, arrivals,
}

-- What the execution awaits comes from a later operation of the queue: the event about the submission
-- or its approval.
abbrev pub needs_queue : Phase → Bool
needs_queue (asking id) = true
needs_queue (waiting id) = true
needs_queue _ = false

abbrev pub with_jobs : List Job → System → System
with_jobs js s = record s { jobs = s.jobs ++ js }

move_stuck : (m : Move) (e : RunnerExecutor) → needs_queue e.phase ≡ true → move m e ≡ e
unfolding move
move_stuck m e h = ground arith

asked_stuck : (m : Move) (p : Phase) → needs_queue p ≡ true → asked m p ≡ []
asked_stuck m p h = ground arith

-- An executor that is not idle for the queue, and waits for it.
pub record IsDeadlocked (s : System) : Type 0 where
  pub blocked : s.blocked ≡ true
  pub waiter : s.executor.idle_waiters ≡ 1
  pub needs : needs_queue s.executor.phase ≡ true

one_open : (e : RunnerExecutor) → e.idle_waiters ≡ 1 → nat_eq e.idle_waiters 0 ≡ false
one_open e h = ground arith

run_move_stuck : (m : Move) (s : System) → IsDeadlocked s → run_move m s ≡ with_jobs [] s
unfolding run_move move
run_move_stuck m s d = rw (
  move_stuck m s.executor d.needs,
  asked_stuck m s.executor.phase d.needs,
  d.blocked,
  one_open s.executor d.waiter,
)

serve_stuck : (sent : Bool) (s : System) → s.blocked ≡ true → serve sent s ≡ s
unfolding serve
serve_stuck sent s h = rw h

with_jobs-nil : (s : System) → with_jobs [] s ≡ s
with_jobs-nil s = ap (λ js. record s { jobs = js }) (append-nil s.jobs)

-- Once the queue awaits the idle executor while the execution awaits its event or an approval, nothing
-- changes any more, whatever arrives, is served or is tried: the operations that arrive, an approval
-- and a cancellation too, only queue up behind.
pub happen_all_stuck :
    (es : List Event) (s : System) → IsDeadlocked s → happen_all es s ≡ with_jobs (arrivals es) s
unfolding happen_all happen
happen_all_stuck [] s d = sym (with_jobs-nil s)
happen_all_stuck (arrives j ∷ es) s d =
    happen_all_stuck es (with_jobs (j ∷ []) s)
      (record { blocked = d.blocked; waiter = d.waiter; needs = d.needs })
    ∙ ap (λ js. record s { jobs = js }) (append_assoc s.jobs (j ∷ []) (arrivals es))
happen_all_stuck (served sent ∷ es) s d = rw (serve_stuck sent s d.blocked, happen_all_stuck es s d)
happen_all_stuck (moves m ∷ es) s d =
    rw (run_move_stuck m s d, with_jobs-nil s, happen_all_stuck es s d)
