-- ===== src/Sidecar/Settled.antt =====
-- No promise of the client is forgotten.
use smart_form.Base.{
  String, Bool, true, ◌&&◌, ◌||◌, ◌≡◌, refl, ap, Option, none, some, List, [], ◌∷◌, ◌++◌, ◌==◌, any,
  if_has, arith, eq_iff, is_some, truthy,
}
use smart_form.Sidecar.{
  PendingRequest, Client, Outcome, resolved, rejected, fail_all, settle_all, end_all,
  without_request, without_task, end_task, settle_request, fail_request, request, execute_request,
  begin_execution, find_request, answer, finish_task, answer_id, route_response, SidecarResponse,
  ResponseType, ready, ack, result, error, is_result,
}

-- The promise for the name is awaited or was settled.
abbrev pub known : String → List String → List (String × Outcome) → Bool
known id awaited settled =
    any (λ u. u == id) awaited || any (λ (r : String × Outcome). r.0 == id) settled

abbrev pub ids : List PendingRequest → List String
ids [] = []
ids (p ∷ ps) = p.request_id ∷ ids ps

-- What the first client has a promise for, the second one has too.
pub record Keeps (s s' : Client) : Type 0 where
  pub tasks :
      (t : String) → known t s.executions s.tasks ≡ true → known t s'.executions s'.tasks ≡ true
  pub requests :
      (id : String)
      → known id (ids s.pending) s.requests ≡ true
      → known id (ids s'.pending) s'.requests ≡ true

pub Keeps-refl : (s : Client) → Keeps s s
Keeps-refl s = record { tasks = λ t h. h; requests = λ id h. h }

pub Keeps-trans : (r s t : Client) → Keeps r s → Keeps s t → Keeps r t
Keeps-trans r s t h k = record {
  tasks = λ x g. k.tasks x (h.tasks x g);
  requests = λ x g. k.requests x (h.requests x g);
}

known-end_all :
    (id : String) (o : Outcome) (awaited : List String) (settled : List (String × Outcome))
    → known id awaited settled ≡ true
    → known id [] (end_all o awaited ++ settled) ≡ true
known-end_all id o [] settled h = h
known-end_all id o (x ∷ awaited) settled h =
    let rest = known-end_all id o awaited settled in ground arith

settle_all-ids : (o : Outcome) (ps : List PendingRequest) → settle_all o ps ≡ end_all o (ids ps)
settle_all-ids o [] = refl
settle_all-ids o (p ∷ ps) = ap (λ rest. (p.request_id, o) ∷ rest) (settle_all-ids o ps)

-- A promise that is settled leaves the awaited ones.
known-without_task :
    (id x : String) (o : Outcome) (awaited : List String) (settled : List (String × Outcome))
    → known id awaited settled ≡ true
    → known id (without_task x awaited) ((x, o) ∷ settled) ≡ true
known-without_task id x o [] settled h = ground arith
known-without_task id x o (y ∷ awaited) settled h =
    let rest = known-without_task id x o awaited settled in let same = eq_iff y x in ground arith

ids-without_request :
    (id : String) (ps : List PendingRequest)
    → ids (without_request id ps) ≡ without_task id (ids ps)
ids-without_request id [] = refl
ids-without_request id (p ∷ ps) = let rest = ids-without_request id ps in ground arith

pub fail_all-Keeps : (s : Client) → Keeps s (fail_all s)
unfolding fail_all
fail_all-Keeps s = record {
  tasks = λ t h. known-end_all t rejected s.executions s.tasks h;
  requests = λ id h.
      rw (settle_all-ids rejected s.pending)
        (known-end_all id rejected (ids s.pending) s.requests h);
}

settle_request-Keeps :
    (o : Outcome) (p : PendingRequest) (s : Client) → Keeps s (settle_request o p s)
settle_request-Keeps o p s = record {
  tasks = λ t h. h;
  requests = λ id h.
      rw (ids-without_request p.request_id s.pending)
        (known-without_task id p.request_id o (ids s.pending) s.requests h);
}

pub end_task-Keeps : (t : Option String) (s : Client) → Keeps s (end_task t s)
end_task-Keeps none s = Keeps-refl s
end_task-Keeps (some t) s = record {
  tasks = λ u h. known-without_task u t rejected s.executions s.tasks h;
  requests = λ id h. h;
}

pub fail_request-Keeps : (p : PendingRequest) (s : Client) → Keeps s (fail_request p s)
fail_request-Keeps p s =
    let settled = settle_request rejected p s in
    Keeps-trans s settled (end_task p.task settled) (settle_request-Keeps rejected p s)
      (end_task-Keeps p.task settled)

-- A name that is awaited again is awaited once.
known-again :
    (id x : String) (awaited : List String) (settled : List (String × Outcome))
    → known id awaited settled ≡ true
    → known id (x ∷ without_task x awaited) settled ≡ true
known-again id x [] settled h = ground arith
known-again id x (y ∷ awaited) settled h =
    let rest = known-again id x awaited settled in let same = eq_iff y x in ground arith

pub request-Keeps :
    (sendable : Bool) (p : PendingRequest) (s : Client) → Keeps s (request sendable p s)
unfolding request
request-Keeps sendable p s =
    if_has (Keeps s) (is_some s.process && sendable)
      (record {
        tasks = λ t h. h;
        requests = λ id h.
            rw (ids-without_request p.request_id s.pending)
              (known-again id p.request_id (ids s.pending) s.requests h);
      })
      (fail_request-Keeps p s)

pub begin_execution-Keeps :
    (sendable : Bool) (id task : String) (s : Client) → Keeps s (begin_execution sendable id task s)
unfolding begin_execution
begin_execution-Keeps sendable id task s =
    let more = record s { executions = task ∷ s.executions } in
    if_has (Keeps s) (any (λ t. t == task) s.executions)
      (record { tasks = λ t h. ground arith; requests = λ i h. h })
      (Keeps-trans s more (request sendable (execute_request id task) more)
        (record { tasks = λ t h. ground arith; requests = λ i h. h })
        (request-Keeps sendable (execute_request id task) more))

finish_task-Keeps : (t : Option String) (s : Client) → Keeps s (finish_task t s)
finish_task-Keeps none s = Keeps-refl s
finish_task-Keeps (some t) s =
    if_has (Keeps s) (any (λ u. u == t) s.executions)
      (record {
        tasks = λ u h. known-without_task u t resolved s.executions s.tasks h;
        requests = λ id h. h;
      })
      (Keeps-refl s)

answer-Keeps : (t : ResponseType) (p : Option PendingRequest) (s : Client) → Keeps s (answer t p s)
answer-Keeps t none s = Keeps-refl s
answer-Keeps error (some p) s = fail_request-Keeps p s
answer-Keeps ready (some p) s = settle_request-Keeps resolved p s
answer-Keeps ack (some p) s = settle_request-Keeps resolved p s
answer-Keeps result (some p) s = settle_request-Keeps resolved p s

answer_id-Keeps : (t : ResponseType) (id : Option String) (s : Client) → Keeps s (answer_id t id s)
answer_id-Keeps t none s = Keeps-refl s
answer_id-Keeps t (some id) s =
    if_has (Keeps s) (truthy (some id)) (answer-Keeps t (find_request id s.pending) s)
      (Keeps-refl s)

pub route_response-Keeps : (r : SidecarResponse) (s : Client) → Keeps s (route_response r s)
unfolding route_response
route_response-Keeps r s =
    if_has (Keeps s) (is_result r.response_type && truthy r.task_id) (finish_task-Keeps r.task_id s)
      (answer_id-Keeps r.response_type r.request_id s)
