-- ===== src/Server/Tests.antt =====
-- An agent and two web clients of two tenants.
use smart_form.Base.{String, true, none, some, List, [], ◌∷◌}
use smart_form.Contracts.Protocol.{AgentReport, task_event}
use smart_form.Server.Sessions.{AuthPrincipal, agent, web, Moment}
use smart_form.Server.Hub.{Event, verified, received, agent_report, disconnected}

abbrev principal : String → AuthPrincipal
principal tenant = record {
  subject = "s";
  tenant_id = tenant;
  device_id = none;
  scopes = "tasks:execute" ∷ [];
}

abbrev moment : Moment
moment = record { parse_date = λ text. none; now = 0; is_open = λ peer. true }

abbrev report : AgentReport
report = record {
  protocol_version = "1.0.0";
  report_id = "r1";
  report_type = task_event;
  tenant_id = "a";
  device_id = "d1";
  task_id = none;
  command_id = none;
  sequence = 1;
  timestamp = 0;
  payload = [];
}

abbrev events : List Event
events =
    verified 1 (record { role = agent; device_id = some "d1" }) (principal "a")
    ∷ verified 2 (record { role = web; device_id = none }) (principal "a")
    ∷ verified 3 (record { role = web; device_id = none }) (principal "b")
    ∷ received moment 1 (agent_report (some report))
    ∷ disconnected 2
    ∷ []
