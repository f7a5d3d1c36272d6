-- ===== src/Sidecar.antt =====
-- apps/desktop/src/agent/sidecar-client.ts: what the client keeps of a process and of the promises that
-- it gave out. A promise is in its list until it is settled; the settlements are noted. What happens
-- to the process is an event; the code after the wait for `start` is one too.
pub mod Process
pub mod Environment
pub mod Settled
pub mod Promises
pub mod Over
pub mod Broken
pub mod Executor
mod Tests
use smart_form.Base.{
  ℕ, suc, String, Bool, true, false, not, ◌&&◌, Option, none, some, List, [], ◌∷◌, ◌++◌, ◌==◌,
  nat_eq, any, is_some, if◌then◌else◌, truthy,
}

pub data RequestType : Type 0 where
  execute pause resume cancel ping shutdown : RequestType

-- `task` is the execution that ends when the request fails.
pub record PendingRequest : Type 0 where
  pub request_id : String
  pub request_type : RequestType
  pub task : Option String

pub data ResponseType : Type 0 where
  ready ack result error : ResponseType

pub record SidecarResponse : Type 0 where
  pub response_type : ResponseType
  pub request_id : Option String
  pub task_id : Option String

-- How a promise was settled.
pub data Outcome : Type 0 where
  resolved rejected : Outcome

-- `children` is the number of processes that were spawned, `starting` those whose startup timer runs.
-- `requests`, `tasks` and `ready_states` say how the promises of `request`, those of `execute` and those of
-- `start` were settled.
pub record Client : Type 0 where
  pub process : Option ℕ
  pub ready_promise : Option ℕ
  pub pending : List PendingRequest
  pub executions : List String
  pub children : ℕ
  pub starting : List ℕ
  pub killed : List ℕ
  pub requests : List (String × Outcome)
  pub tasks : List (String × Outcome)
  pub ready_states : List (ℕ × Outcome)

abbrev pub new_client : Client
new_client = record {
  process = none;
  ready_promise = none;
  pending = [];
  executions = [];
  children = 0;
  starting = [];
  killed = [];
  requests = [];
  tasks = [];
  ready_states = [];
}

abbrev pub spawn : Client → Client
spawn s = record s {
  process = some s.children;
  ready_promise = some s.children;
  children = suc s.children;
  starting = s.children ∷ s.starting;
}

unfoldable pub start : Client → Client
start s = if is_some s.ready_promise then s else spawn s

abbrev pub settle_all : Outcome → List PendingRequest → List (String × Outcome)
settle_all o [] = []
settle_all o (p ∷ ps) = (p.request_id, o) ∷ settle_all o ps

abbrev pub end_all : Outcome → List String → List (String × Outcome)
end_all o [] = []
end_all o (t ∷ ts) = (t, o) ∷ end_all o ts

unfoldable pub fail_all : Client → Client
fail_all s = record s {
  pending = [];
  executions = [];
  requests = settle_all rejected s.pending ++ s.requests;
  tasks = end_all rejected s.executions ++ s.tasks;
}

abbrev kill : Option ℕ → List ℕ → List ℕ
kill none killed = killed
kill (some child) killed = if any (nat_eq child) killed then killed else child ∷ killed

unfoldable pub stop : Client → Client
unfolding fail_all
stop s =
    fail_all (record s { process = none; ready_promise = none; killed = kill s.process s.killed })

abbrev pub without_request : String → List PendingRequest → List PendingRequest
without_request id [] = []
without_request id (p ∷ ps) =
    let rest = without_request id ps in if p.request_id == id then rest else p ∷ rest

abbrev pub without_task : String → List String → List String
without_task id [] = []
without_task id (t ∷ ts) = let rest = without_task id ts in if t == id then rest else t ∷ rest

-- The `catch` of `execute`.
abbrev pub end_task : Option String → Client → Client
end_task none s = s
end_task (some t) s = record s {
  executions = without_task t s.executions;
  tasks = (t, rejected) ∷ s.tasks;
}

-- A request that is answered, fails or is not sent at all.
abbrev pub settle_request : Outcome → PendingRequest → Client → Client
settle_request o p s = record s {
  pending = without_request p.request_id s.pending;
  requests = (p.request_id, o) ∷ s.requests;
}

abbrev pub fail_request : PendingRequest → Client → Client
fail_request p s = end_task p.task (settle_request rejected p s)

-- `sendable` is whether the request has the form of its schema and the process still takes input.
unfoldable pub request : Bool → PendingRequest → Client → Client
request sendable p s =
    if is_some s.process && sendable
    then record s { pending = p ∷ without_request p.request_id s.pending }
    else fail_request p s

abbrev pub execute_request : String → String → PendingRequest
execute_request id task = record { request_id = id; request_type = execute; task = some task }

-- `execute` once `start` is over, and `control`, which sends no other request for the task.
unfoldable pub begin_execution : Bool → String → String → Client → Client
unfolding request
begin_execution sendable request_id task s =
    if any (λ t. t == task) s.executions
    then record s { tasks = (task, rejected) ∷ s.tasks }
    else request sendable (execute_request request_id task)
        (record s { executions = task ∷ s.executions })

abbrev pub find_request : String → List PendingRequest → Option PendingRequest
find_request id [] = none
find_request id (p ∷ ps) = if p.request_id == id then some p else find_request id ps

abbrev pub answer : ResponseType → Option PendingRequest → Client → Client
answer t none s = s
answer error (some p) s = fail_request p s
answer t (some p) s = settle_request resolved p s

abbrev pub is_result : ResponseType → Bool
is_result result = true
is_result _ = false

abbrev pub finish_task : Option String → Client → Client
finish_task none s = s
finish_task (some t) s =
    if any (λ u. u == t) s.executions
    then record s { executions = without_task t s.executions; tasks = (t, resolved) ∷ s.tasks }
    else s

abbrev pub answer_id : ResponseType → Option String → Client → Client
answer_id t none s = s
answer_id t (some id) s = if truthy (some id) then answer t (find_request id s.pending) s else s

unfoldable pub route_response : SidecarResponse → Client → Client
route_response r s =
    if is_result r.response_type && truthy r.task_id
    then finish_task r.task_id s
    else answer_id r.response_type r.request_id s
