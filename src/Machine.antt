-- ===== src/Machine.antt =====
-- apps/desktop/src/agent/fsm/taskMachine.ts. A listener is the number by which it is told apart
-- from the others; what a call sends to the listeners is part of its result. `send` is the
-- `switch` on the state, then the transitions that all states share.
pub mod Guards
pub mod Traces
pub mod Listeners
mod Tests
use smart_form.Base.{
  ℕ, ◌+◌, String, Bool, true, false, not, ◌&&◌, ◌||◌, Option, none, some, List, [], ◌∷◌, ◌++◌, map,
  nat_eq, if◌then◌else◌,
}
use smart_form.Contracts.Task.{TaskMode, read, write}

pub data TaskState : Type 0 where
  draft planning matching exploring collecting filling waiting_approval_submit submitting :
      TaskState
  submit_failed data_validating compiling replaying publishing succeeded : TaskState
  waiting_human paused cancelled failed : TaskState

pub TaskState-discrete : Discrete TaskState
TaskState-discrete = hlevel

pub record TaskContext : Type 0 where
  pub task_id : String
  pub target_url : String
  pub mode : TaskMode
  pub current_step : ℕ
  pub max_steps : ℕ
  pub collected_count : ℕ
  pub submission_id : Option String
  pub error_msg : Option String
  pub human_reason : Option String

pub data TaskEvent : Type 0 where
  start plan_done match_fail match_success : TaskEvent
  explore_step : ℕ → TaskEvent
  require_human : String → TaskEvent
  human_resume : TaskEvent
  collect_page : ℕ → TaskEvent
  start_filling : TaskEvent
  require_submit_approval : String → TaskEvent
  approve_submit reject_submit submit_success : TaskEvent
  submit_fail : String → TaskEvent
  validate_done compile_done replay_done publish_done pause resume cancel : TaskEvent
  fail : String → TaskEvent

pub record Machine : Type 0 where
  pub current_state : TaskState
  pub context : TaskContext
  pub listeners : List ℕ

-- The fields that the constructor's argument may leave out.
pub record InitialContext : Type 0 where
  pub task_id : String
  pub target_url : String
  pub mode : Option TaskMode
  pub current_step : Option ℕ
  pub max_steps : Option ℕ
  pub collected_count : Option ℕ
  pub submission_id : Option String
  pub error_msg : Option String
  pub human_reason : Option String

abbrev or_default : {A : Type 0} → Option A → A → A
or_default none d = d
or_default (some a) d = a

pub create : InitialContext → Machine
create c = record {
  current_state = draft;
  context = record {
    task_id = c.task_id;
    target_url = c.target_url;
    mode = or_default c.mode read;
    current_step = or_default c.current_step 0;
    max_steps = or_default c.max_steps 100;
    collected_count = or_default c.collected_count 0;
    submission_id = c.submission_id;
    error_msg = c.error_msg;
    human_reason = c.human_reason;
  };
  listeners = [];
}

pub subscribe : ℕ → Machine → Machine
subscribe listener m = record m { listeners = m.listeners ++ listener ∷ [] }

remove_listener : ℕ → List ℕ → List ℕ
remove_listener listener [] = []
remove_listener listener (l ∷ ls) =
    if nat_eq l listener then remove_listener listener ls else l ∷ remove_listener listener ls

-- What the function that `subscribe` returns does.
pub unsubscribe : ℕ → Machine → Machine
unfolding remove_listener
unsubscribe listener m = record m { listeners = remove_listener listener m.listeners }

abbrev by_mode : TaskMode → TaskState → TaskState → TaskState
by_mode write w r = w
by_mode read w r = r

-- The `switch` on the current state: the next state, and the context that it wrote.
unfoldable pub advance : TaskState → TaskEvent → TaskContext → TaskState × TaskContext
advance draft start c = (planning, c)
advance planning plan_done c = (matching, c)
advance matching match_success c = (by_mode c.mode filling collecting, c)
advance matching match_fail c = (exploring, c)
advance exploring (explore_step step) c = (exploring, record c { current_step = step })
advance exploring (require_human reason) c =
    (waiting_human, record c { human_reason = some reason })
advance exploring (collect_page count) c =
    (collecting, record c { collected_count = c.collected_count + count })
advance exploring start_filling c = (filling, c)
advance collecting (collect_page count) c =
    (collecting, record c { collected_count = c.collected_count + count })
advance collecting validate_done c = (data_validating, c)
advance collecting (require_human reason) c =
    (waiting_human, record c { human_reason = some reason })
advance filling (require_submit_approval id) c =
    (waiting_approval_submit, record c { submission_id = some id })
advance filling (require_human reason) c = (waiting_human, record c { human_reason = some reason })
advance waiting_approval_submit approve_submit c = (submitting, c)
advance waiting_approval_submit reject_submit c = (cancelled, c)
advance submitting submit_success c = (succeeded, c)
advance submitting (submit_fail error) c = (submit_failed, record c { error_msg = some error })
advance waiting_human human_resume c =
    (by_mode c.mode filling exploring, record c { human_reason = none })
advance data_validating compile_done c = (compiling, c)
advance compiling replay_done c = (replaying, c)
advance replaying publish_done c = (succeeded, c)
advance s _ c = (s, c)

abbrev is_pausable : TaskState → Bool
is_pausable succeeded = false
is_pausable failed = false
is_pausable cancelled = false
is_pausable submitting = false
is_pausable _ = true

-- The transitions that all states share.
unfoldable pub apply_global : TaskState → TaskEvent → TaskContext → TaskState × TaskContext
apply_global s pause c = (if is_pausable s then paused else s, c)
apply_global paused resume c = (by_mode c.mode filling exploring, c)
apply_global submitting cancel c = (submitting, c)
apply_global s cancel c = (cancelled, c)
apply_global s (fail error) c = (failed, record c { error_msg = some error })
apply_global s _ c = (s, c)

abbrev same_state : TaskState → TaskState → Bool
same_state s t = elim (TaskState-discrete s t) [ yes _ ↦ true | no _ ↦ false ]

-- What each listener is called with, in the order of the subscriptions.
abbrev Notices : Type 0
Notices = List (ℕ × TaskState × TaskContext)

abbrev notify_listeners : Machine → Notices
notify_listeners m = map (λ l. (l, m.current_state, m.context)) m.listeners

-- The machine after both steps of `send`.
unfoldable pub after : Machine → TaskEvent → Machine
unfolding advance apply_global
after m e =
    let (s, c) = advance m.current_state e m.context in
    let (s', c') = apply_global s e c in record m { current_state = s'; context = c' }

unfoldable pub send : Machine → TaskEvent → Machine × Bool × Notices
send m e =
    let m' = after m e in
    if same_state m'.current_state m.current_state
    then (m', false, [])
    else (m', true, notify_listeners m')

unfoldable pub send_all : Machine → List TaskEvent → Machine
send_all m [] = m
send_all m (e ∷ es) = send_all (send m e).0 es
