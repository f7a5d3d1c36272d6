-- ===== src/Sidecar/Process.antt =====
-- What the client does when something happens to its process or to a request, and all that can happen.
use smart_form.Base.{
  ℕ, String, Bool, true, false, Option, none, some, List, [], ◌∷◌, nat_eq, any, is_some,
  if◌then◌else◌,
}
use smart_form.Sidecar.{
  Client, Outcome, resolved, rejected, SidecarResponse, ready, ResponseType, RequestType, shutdown,
  PendingRequest, start, stop, fail_all, find_request, fail_request, request, begin_execution,
  route_response,
}

abbrev pub clear_startup : ℕ → List ℕ → List ℕ
clear_startup child [] = []
clear_startup child (c ∷ cs) =
    let rest = clear_startup child cs in if nat_eq c child then rest else c ∷ rest

-- The startup timer is cleared, and the promise of `start` is settled unless it is already.
abbrev pub settle_ready : ℕ → Outcome → Client → Client
settle_ready child o s =
    let s' = record s { starting = clear_startup child s.starting } in
    if any (λ (r : ℕ × Outcome). nat_eq r.0 child) s.ready_states
    then s'
    else record s' { ready_states = (child, o) ∷ s.ready_states }

abbrev pub is_ready : ResponseType → Bool
is_ready ready = true
is_ready _ = false

-- A line of the output; `none` is one that is no response.
unfoldable pub on_line : ℕ → Option SidecarResponse → Client → Client
unfolding fail_all route_response
on_line child none s = fail_all s
on_line child (some r) s =
    if is_ready r.response_type then settle_ready child resolved s else route_response r s

unfoldable pub on_startup_due : ℕ → Client → Client
unfolding stop
on_startup_due child s =
    if any (nat_eq child) s.starting then stop (settle_ready child rejected s) else s

unfoldable pub on_error : ℕ → Client → Client
unfolding fail_all
on_error child s = fail_all (settle_ready child rejected s)

unfoldable pub on_exit : ℕ → Client → Client
unfolding fail_all
on_exit child s = record (fail_all (settle_ready child rejected s)) {
  process = none;
  ready_promise = none;
}

-- A request that took too long, or whose text could not be written.
abbrev pub fail_found : Option PendingRequest → Client → Client
fail_found none s = s
fail_found (some p) s = fail_request p s

unfoldable pub on_request_failure : String → Client → Client
on_request_failure id s = fail_found (find_request id s.pending) s

abbrev pub plain_request : RequestType → String → PendingRequest
plain_request t id = record { request_id = id; request_type = t; task = none }

-- `shutdown` up to its wait; `stop` follows.
unfoldable pub begin_shutdown : Bool → String → Client → Client
unfolding request
begin_shutdown sendable id s =
    if is_some s.process then request sendable (plain_request shutdown id) s else s

-- `executes` and `controls` may come although `start` is not over: more can happen here than there.
pub data Event : Type 0 where
  starts stops : Event
  executes : Bool → String → String → Event
  controls : Bool → RequestType → String → Event
  shuts_down : Bool → String → Event
  line : ℕ → Option SidecarResponse → Event
  startup_due errs exits : ℕ → Event
  request_fails : String → Event

unfoldable pub happen : Event → Client → Client
unfolding start stop begin_execution request begin_shutdown on_line on_startup_due on_error on_exit
    on_request_failure
happen starts s = start s
happen stops s = stop s
happen (executes sendable id task) s = begin_execution sendable id task s
happen (controls sendable t id) s = request sendable (plain_request t id) s
happen (shuts_down sendable id) s = begin_shutdown sendable id s
happen (line child r) s = on_line child r s
happen (startup_due child) s = on_startup_due child s
happen (errs child) s = on_error child s
happen (exits child) s = on_exit child s
happen (request_fails id) s = on_request_failure id s

unfoldable pub happen_all : List Event → Client → Client
unfolding happen
happen_all [] s = s
happen_all (e ∷ es) s = happen_all es (happen e s)
