-- ===== src/Sidecar/Promises.antt =====
-- What every event does for the promises.
use smart_form.Base.{ℕ, Option, none, some, List, [], ◌∷◌, any, if_has, nat_eq, is_some}
use smart_form.Sidecar.{
  PendingRequest, Client, Outcome, resolved, rejected, start, stop, fail_all, shutdown,
  find_request, SidecarResponse,
}
use smart_form.Sidecar.Process.{
  settle_ready, on_line, on_startup_due, on_error, on_exit, fail_found, on_request_failure,
  plain_request, begin_shutdown, is_ready, Event, starts, stops, executes, controls, shuts_down,
  line, startup_due, errs, exits, request_fails, happen, happen_all,
}
use smart_form.Sidecar.Settled.{
  Keeps, Keeps-refl, Keeps-trans, fail_all-Keeps, fail_request-Keeps, request-Keeps,
  begin_execution-Keeps, route_response-Keeps,
}

start-Keeps : (s : Client) → Keeps s (start s)
unfolding start
start-Keeps s =
    if_has (Keeps s) (is_some s.ready_promise) (Keeps-refl s)
      (record { tasks = λ t h. h; requests = λ id h. h })

pub stop-Keeps : (s : Client) → Keeps s (stop s)
unfolding stop
stop-Keeps s =
    let kept = fail_all-Keeps s in record { tasks = kept.tasks; requests = kept.requests }

ready-Keeps : (child : ℕ) (o : Outcome) (s : Client) → Keeps s (settle_ready child o s)
ready-Keeps child o s =
    if_has (Keeps s) (any (λ (r : ℕ × Outcome). nat_eq r.0 child) s.ready_states)
      (record { tasks = λ t h. h; requests = λ id h. h })
      (record { tasks = λ t h. h; requests = λ id h. h })

line-Keeps : (child : ℕ) (r : Option SidecarResponse) (s : Client) → Keeps s (on_line child r s)
unfolding on_line
line-Keeps child none s = fail_all-Keeps s
line-Keeps child (some r) s =
    if_has (Keeps s) (is_ready r.response_type) (ready-Keeps child resolved s)
      (route_response-Keeps r s)

startup-Keeps : (child : ℕ) (s : Client) → Keeps s (on_startup_due child s)
unfolding on_startup_due
startup-Keeps child s =
    let late = settle_ready child rejected s in
    if_has (Keeps s) (any (nat_eq child) s.starting)
      (Keeps-trans s late (stop late) (ready-Keeps child rejected s) (stop-Keeps late))
      (Keeps-refl s)

error-Keeps : (child : ℕ) (s : Client) → Keeps s (on_error child s)
unfolding on_error
error-Keeps child s =
    let late = settle_ready child rejected s in
    Keeps-trans s late (fail_all late) (ready-Keeps child rejected s) (fail_all-Keeps late)

pub exit-Keeps : (child : ℕ) (s : Client) → Keeps s (on_exit child s)
unfolding on_exit on_error
exit-Keeps child s =
    let kept = error-Keeps child s in record { tasks = kept.tasks; requests = kept.requests }

found-Keeps : (p : Option PendingRequest) (s : Client) → Keeps s (fail_found p s)
found-Keeps none s = Keeps-refl s
found-Keeps (some p) s = fail_request-Keeps p s

happen-Keeps : (e : Event) (s : Client) → Keeps s (happen e s)
unfolding happen on_request_failure begin_shutdown
happen-Keeps starts s = start-Keeps s
happen-Keeps stops s = stop-Keeps s
happen-Keeps (executes sendable id task) s = begin_execution-Keeps sendable id task s
happen-Keeps (controls sendable t id) s = request-Keeps sendable (plain_request t id) s
happen-Keeps (shuts_down sendable id) s =
    if_has (Keeps s) (is_some s.process) (request-Keeps sendable (plain_request shutdown id) s)
      (Keeps-refl s)
happen-Keeps (line child r) s = line-Keeps child r s
happen-Keeps (startup_due child) s = startup-Keeps child s
happen-Keeps (errs child) s = error-Keeps child s
happen-Keeps (exits child) s = exit-Keeps child s
happen-Keeps (request_fails id) s = found-Keeps (find_request id s.pending) s

pub happen_all-Keeps : (es : List Event) (s : Client) → Keeps s (happen_all es s)
unfolding happen_all
happen_all-Keeps [] s = Keeps-refl s
happen_all-Keeps (e ∷ es) s =
    Keeps-trans s (happen e s) (happen_all es (happen e s)) (happen-Keeps e s)
      (happen_all-Keeps es (happen e s))
