-- ===== src/Server/Isolation/Events.antt =====
-- Every sequence of events keeps the tenants apart.
use smart_form.Base.{ℕ, String, ◌≡◌, true, List, [], ◌∷◌, Any}
use smart_form.Server.Sessions.{Net, server_hello, report_ack}
use smart_form.Server.Hub.{Event, verified, happen}
use smart_form.Contracts.Protocol.{envelope_of}
use smart_form.Server.Sessions.{Message, task_command, task_report, frame}
use smart_form.Server.Keys.{has_no_nul}

module _ (Trusted : ℕ → String → Type 0) where
  -- The event gives no socket a tenant that it is not trusted with.
  abbrev EventTrusted : Event → Type 0
  EventTrusted (verified socket hello p) = Trusted socket p.tenant_id
  EventTrusted _ = Unit {0}

pub happen_all : Net → List Event → Net
happen_all n [] = n
happen_all n (e ∷ es) = happen_all (happen n e) es

-- The token of the socket was verified, for a principal of the tenant.
abbrev pub Admits : ℕ → String → Event → Type 0
Admits socket tenant_id (verified s hello p) = (s ≡ socket) × (p.tenant_id ≡ tenant_id)
Admits socket tenant_id _ = ⊥

abbrev pub Admitted : List Event → ℕ → String → Type 0
Admitted events socket tenant_id = Any (Admits socket tenant_id) events

abbrev pub quiet_net : Net
quiet_net = record {
  agents = [];
  web_sessions = [];
  next_serial = 0;
  sessions = [];
  authenticated = [];
  sent = [];
  closed = [];
  reported = [];
}

-- The tenant of a verified token has no NUL in its name.
abbrev pub HasPlainTenant : Event → Type 0
HasPlainTenant (verified socket hello p) = has_no_nul p.tenant_id ≡ true
HasPlainTenant _ = Unit {0}

abbrev PlainlyAdmitted : List Event → ℕ → String → Type 0
PlainlyAdmitted es socket tenant_id = Admitted es socket tenant_id × (has_no_nul tenant_id ≡ true)

-- What was sent stays with the sockets admitted for its tenant.
abbrev pub StaysInTenant : List Event → ℕ → Message → Type 0
StaysInTenant es peer (task_command c) =
    has_no_nul (envelope_of c).tenant_id ≡ true → Admitted es peer (envelope_of c).tenant_id
StaysInTenant es peer (task_report r) = Admitted es peer r.tenant_id
StaysInTenant es peer (frame tenant_id bytes) = Admitted es peer tenant_id
StaysInTenant es peer (server_hello tenant_id device_id) = Admitted es peer tenant_id
StaysInTenant es peer (report_ack id) = Unit {0}
