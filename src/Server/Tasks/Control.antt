-- ===== src/Server/Tasks/Control.antt =====
-- Which controls reach a device, and what they leave behind.
use smart_form.Base.{
  String, ◌≡◌, refl, true, some, ◌∷◌, truthy, Bool-cases, Option-cases, inl, inr, ◌⊎◌,
}
use smart_form.Base.Exec.{Exec, ok, is_err}
use smart_form.Contracts.Protocol.{AgentCommand, envelope_of}
use smart_form.Server.Sessions.{
  Net, task_command, Moment, dispatch, find_agent, device_key, has_expired, AgentSession,
}
use smart_form.Server.Tasks.{
  TaskRouteRecord, Plane, find, TaskControlRequest, Stamp, needs_submission, cancelled_plane,
  control_command, dispatch_control,
}

-- A dispatch sends the command once, to the open session of the command's device, or it throws and
-- changes nothing.
pub dispatch_outcome :
    (t : Moment) (c : AgentCommand) (n : Net)
    → ((s : AgentSession) × (find_agent
            (device_key (envelope_of c).tenant_id (envelope_of c).device_id)
            n.agents
          ≡ some s)
        × (t.is_open s.peer ≡ true)
        × (dispatch t c n ≡ (
          ok tt,
          record n { sent = record { peer = s.peer; message = task_command c } ∷ n.sent },
        )))
      ⊎ ((is_err (dispatch t c n).0 ≡ true) × ((dispatch t c n).1 ≡ n))
unfolding dispatch
dispatch_outcome t c n =
    elim (Option-cases
      (find_agent (device_key (envelope_of c).tenant_id (envelope_of c).device_id) n.agents)) [
        | inl absent ↦ inr (rw absent (refl, refl))
        | inr (s, e) ↦ elim (Bool-cases (t.is_open s.peer)) [
          | inr down ↦ inr (rw e (rw down (refl, refl)))
          | inl up ↦
              elim (Bool-cases (has_expired (t.parse_date (envelope_of c).expires_at) t.now)) [
                | inl late ↦ inr (rw e (rw up (rw late (refl, refl))))
                | inr early ↦ inl (s, e, up, rw e (rw up (rw early refl)))
              ]
        ]
      ]

-- The plane after the command was sent to the session.
abbrev pub sent_plane : Plane → AgentSession → AgentCommand → Plane
sent_plane s session c = record s {
  net = record s.net {
    sent = record { peer = session.peer; message = task_command c } ∷ s.net.sent;
  };
}

-- The control goes to the open session of the device that the task was registered for.
abbrev pub Sent : String → String → TaskControlRequest → Stamp → Plane → Type 0
Sent tenant_id task_id request stamp s =
    (r : TaskRouteRecord) × (session : AgentSession) × (find tenant_id task_id s ≡ some r)
    × (needs_submission request.control_type ≡ true → truthy request.submission_id ≡ true)
    × (find_agent (device_key tenant_id r.device_id) s.net.agents ≡ some session)
    × (stamp.moment.is_open session.peer ≡ true)
    × (let c = control_command tenant_id task_id r.device_id request stamp in
        dispatch_control tenant_id task_id request stamp s
        ≡ (ok c, cancelled_plane tenant_id task_id request.control_type (sent_plane s session c)))
