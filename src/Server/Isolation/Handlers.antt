-- ===== src/Server/Isolation/Handlers.antt =====
-- Each handler of the hub keeps the tenants apart.
use smart_form.Base.{
  ℕ, String, ◌≡◌, not, ◌&&◌, Option, none, some, List, [], ◌∷◌, ◌==◌, nat_eq, nat_eq_iff, arith,
  subst, sym, All, any, Bool-cases, inl, inr, truthy, opt_eq,
}
use smart_form.Base.Exec.{put_state, ◌>>=◌}
use smart_form.Base.Exec.Preserves.{
  Preserves, Preserves-bind, Preserves-pure, Preserves-throw, Preserves-require,
  Preserves-try_catch,
}
use smart_form.Contracts.Protocol.{AgentReport}
use smart_form.Server.{AppError, plain_error}
use smart_form.Server.Sessions.{
  AuthPrincipal, SessionState, Role, agent, web, Net, Moment, other_device, server_hello,
  report_ack,
}
use smart_form.Server.Hub.{
  RealtimeHello, Incoming, binary, heartbeat, agent_report, other_message, malformed, find_session,
  set_session, delete_session, agent_device, register_role, register, welcome, session_of, is_agent,
  take_report, serve_session, serve_message, on_message, drop_session, on_close, close_all,
}
use smart_form.Server.Isolation.{
  SessionTrusted, IsIsolated, send_to-IsIsolated, close_peer-IsIsolated, register_agent-IsIsolated,
  register_web-IsIsolated, unregister-IsIsolated, publish_report-IsIsolated, relay_frame-IsIsolated,
}

module _ (Trusted : ℕ → String → Type 0) where
  find_session-SessionTrusted :
      (socket : ℕ) (l : List (ℕ × SessionState)) (s : SessionState)
      → All (SessionTrusted Trusted) l
      → find_session socket l ≡ some s
      → Trusted socket s.principal.tenant_id
  unfolding find_session
  find_session-SessionTrusted socket [] s v e = absurd (ground arith)
  find_session-SessionTrusted socket ((k, o) ∷ l) s (first, v) e =
      elim (Bool-cases (nat_eq k socket)) [
        | inl same ↦
            let this : o ≡ s = ground (arith, rw same at e) in
            subst (λ x. Trusted socket x.principal.tenant_id) this
              (subst (λ x. Trusted x o.principal.tenant_id) ((nat_eq_iff k socket).0 same) first)
        | inr other ↦ find_session-SessionTrusted socket l s v (rw other at e)
      ]

  set_session-SessionTrusted :
      (socket : ℕ) (s : SessionState) (l : List (ℕ × SessionState))
      → Trusted socket s.principal.tenant_id
      → All (SessionTrusted Trusted) l
      → All (SessionTrusted Trusted) (set_session socket s l)
  unfolding set_session
  set_session-SessionTrusted socket s [] h v = (h, tt)
  set_session-SessionTrusted socket s ((k, o) ∷ l) h (first, v) =
      elim (Bool-cases (nat_eq k socket)) [
        | inl same ↦
            rw same (
              subst (λ x. Trusted x s.principal.tenant_id) (sym ((nat_eq_iff k socket).0 same)) h,
              v,
            )
        | inr other ↦ rw other (first, set_session-SessionTrusted socket s l h v)
      ]

  delete_session-SessionTrusted :
      (socket : ℕ) (l : List (ℕ × SessionState))
      → All (SessionTrusted Trusted) l
      → All (SessionTrusted Trusted) (delete_session socket l)
  unfolding delete_session
  delete_session-SessionTrusted socket [] v = tt
  delete_session-SessionTrusted socket ((k, o) ∷ l) (first, v) =
      elim (Bool-cases (nat_eq k socket)) [
        | inl same ↦ rw same v
        | inr other ↦ rw other (first, delete_session-SessionTrusted socket l v)
      ]

  agent_device-IsIsolated :
      (p : AuthPrincipal) (d : Option String) → Preserves (IsIsolated Trusted) (agent_device p d)
  agent_device-IsIsolated p none = Preserves-throw _
  agent_device-IsIsolated p (some d) =
      Preserves-bind _ _
        (Preserves-require (truthy (some d) && any (λ s. s == "tasks:execute") p.scopes)
          (plain_error "Agent sessions require a device ID and tasks:execute scope"))
        λ _.
          Preserves-bind _ _
            (Preserves-require (not (other_device p.device_id d))
              (plain_error "Agent device ID does not match its access token"))
            λ _. Preserves-pure d

  register_role-IsIsolated :
      (socket : ℕ) (p : AuthPrincipal) (d : Option String) (role : Role)
      → Trusted socket p.tenant_id
      → Preserves (IsIsolated Trusted) (register_role socket p d role)
  unfolding register_role
  register_role-IsIsolated socket p d agent trusted =
      Preserves-bind _ _ (agent_device-IsIsolated p d)
        λ device_id. register_agent-IsIsolated Trusted socket p device_id trusted
  register_role-IsIsolated socket p d web trusted = register_web-IsIsolated Trusted socket p trusted

  add_session-IsIsolated :
      (socket : ℕ) (s : SessionState)
      → Trusted socket s.principal.tenant_id
      → Preserves {E = AppError}
          (IsIsolated Trusted)
          (put_state (λ n. record n { sessions = set_session socket s n.sessions }))
  add_session-IsIsolated socket s trusted = record {
    at = λ n v. record {
      agents = v.agents;
      webs = v.webs;
      sessions = set_session-SessionTrusted socket s n.sessions trusted v.sessions;
      sent = v.sent;
    };
  }

  register-IsIsolated :
      (socket : ℕ) (p : AuthPrincipal) (role : Role) (d : Option String)
      → Trusted socket p.tenant_id
      → Preserves (IsIsolated Trusted) (register socket p role d)
  unfolding register
  register-IsIsolated socket p role d trusted =
      Preserves-bind _ _ (register_role-IsIsolated socket p d role trusted) λ u.
        add_session-IsIsolated socket
          (record { principal = p; role = role; device_id = d; unregister = u }) trusted

  mark-IsIsolated :
      (socket : ℕ)
      → Preserves {E = AppError}
          (IsIsolated Trusted)
          (put_state (λ n. record n { authenticated = socket ∷ n.authenticated }))
  mark-IsIsolated socket = record {
    at = λ n v. record { agents = v.agents; webs = v.webs; sessions = v.sessions; sent = v.sent };
  }

  pub welcome-IsIsolated :
      (socket : ℕ) (hello : RealtimeHello) (p : AuthPrincipal)
      → Trusted socket p.tenant_id
      → Preserves (IsIsolated Trusted) (welcome socket hello p)
  unfolding welcome
  welcome-IsIsolated socket hello p trusted =
      Preserves-try_catch _ _
        (Preserves-bind _ _ (register-IsIsolated socket p hello.role hello.device_id trusted) λ _.
          Preserves-bind _ _ (mark-IsIsolated socket) λ _.
            send_to-IsIsolated Trusted socket (server_hello p.tenant_id hello.device_id) trusted)
        λ e. close_peer-IsIsolated Trusted socket 4000

  note_report-IsIsolated :
      (r : AgentReport)
      → Preserves {E = AppError}
          (IsIsolated Trusted)
          (put_state (λ n. record n { reported = r ∷ n.reported }))
  note_report-IsIsolated r = record {
    at = λ n v. record { agents = v.agents; webs = v.webs; sessions = v.sessions; sent = v.sent };
  }

  take_report-IsIsolated :
      (t : Moment) (socket : ℕ) (s : SessionState) (r : Option AgentReport)
      → Preserves (IsIsolated Trusted) (take_report t socket s r)
  unfolding take_report
  take_report-IsIsolated t socket s none = Preserves-throw _
  take_report-IsIsolated t socket s (some r) =
      Preserves-bind _ _
        (Preserves-require
          (r.tenant_id == s.principal.tenant_id && opt_eq (some r.device_id) s.device_id)
          (plain_error "Agent report identity does not match the authenticated session"))
        λ _. Preserves-bind _ _ (publish_report-IsIsolated Trusted t r) λ _.
          Preserves-bind _ _ (note_report-IsIsolated r)
            λ _. send_to-IsIsolated Trusted socket (report_ack r.report_id) tt

  serve_session-IsIsolated :
      (t : Moment) (socket : ℕ) (s : SessionState) (m : Incoming)
      → Preserves (IsIsolated Trusted) (serve_session t socket s m)
  unfolding serve_session
  serve_session-IsIsolated t socket s (binary bytes) =
      Preserves-bind _ _
        (Preserves-require (is_agent s.role) (plain_error "Only agents may upload browser frames"))
        λ _. relay_frame-IsIsolated Trusted t s.principal.tenant_id bytes
  serve_session-IsIsolated t socket s heartbeat = Preserves-pure tt
  serve_session-IsIsolated t socket s (agent_report r) =
      Preserves-bind _ _
        (Preserves-require (is_agent s.role)
          (plain_error "Message type is not allowed for this session"))
        λ _. take_report-IsIsolated t socket s r
  serve_session-IsIsolated t socket s other_message = Preserves-throw _
  serve_session-IsIsolated t socket s malformed = Preserves-throw _

  serve_found-IsIsolated :
      (t : Moment) (socket : ℕ) (m : Incoming) (s : Option SessionState)
      → Preserves (IsIsolated Trusted) (session_of s >>= λ x. serve_session t socket x m)
  serve_found-IsIsolated t socket m none = record { at = λ n v. v }
  serve_found-IsIsolated t socket m (some s) = record {
    at = (serve_session-IsIsolated t socket s m).at;
  }

  pub on_message-IsIsolated :
      (t : Moment) (socket : ℕ) (m : Incoming)
      → Preserves (IsIsolated Trusted) (on_message t socket m)
  unfolding on_message serve_message
  on_message-IsIsolated t socket m =
      Preserves-try_catch _ _
        (record {
          at = λ n v.
              (Preserves-bind _ _
                  (Preserves-require (any (nat_eq socket) n.authenticated)
                    (plain_error "client.hello is required"))
                  λ _. record {
                    at = λ k w.
                        (serve_found-IsIsolated t socket m (find_session socket k.sessions)).at k w;
                  }).at
                n v;
        })
        λ e. close_peer-IsIsolated Trusted socket 4000

  drop_session-IsIsolated :
      (s : Option SessionState) (n : Net)
      → IsIsolated Trusted n
      → IsIsolated Trusted (drop_session s n)
  drop_session-IsIsolated none n v = v
  drop_session-IsIsolated (some s) n v = unregister-IsIsolated Trusted s.unregister n v

  pub on_close-IsIsolated :
      (socket : ℕ) (n : Net) → IsIsolated Trusted n → IsIsolated Trusted (on_close socket n)
  unfolding on_close
  on_close-IsIsolated socket n v =
      let w = drop_session-IsIsolated (find_session socket n.sessions) n v in
      record {
        agents = w.agents;
        webs = w.webs;
        sessions = delete_session-SessionTrusted socket _ w.sessions;
        sent = w.sent;
      }

  pub close_all-IsIsolated :
      (l : List (ℕ × SessionState)) → Preserves (IsIsolated Trusted) (close_all l)
  unfolding close_all
  close_all-IsIsolated [] = Preserves-pure tt
  close_all-IsIsolated ((socket, s) ∷ l) =
      Preserves-bind _ _ (close_peer-IsIsolated Trusted socket 1001) λ _. close_all-IsIsolated l
