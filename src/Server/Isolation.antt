-- ===== src/Server/Isolation.antt =====
-- Tenants are kept apart: what is kept and what is sent, for sockets that are trusted with a tenant.
pub mod Handlers
pub mod Events
use smart_form.Base.{
  ℕ, suc, String, ◌≡◌, refl, subst, sym, Bool, true, false, not, ◌&&◌, Option, none, some, List, [],
  ◌∷◌, ◌++◌, ◌==◌, nat_eq, nat_eq_iff, eq_iff, arith, All, All-append, Bool-cases, Option-cases,
  inl, inr, if◌then◌else◌,
}
use smart_form.Base.Exec.{Exec, pure, throw, gets, put_state, ◌>>=◌, ◌>>◌, require}
use smart_form.Base.Exec.Preserves.{
  Preserves, Preserves-bind, Preserves-pure, Preserves-throw, Preserves-if, Preserves-require,
  Preserves-put,
}
use smart_form.Contracts.Protocol.{AgentCommand, AgentReport, envelope_of}
use smart_form.Server.{AppError, conflict_error}
use smart_form.Server.Sessions.{
  AuthPrincipal, AgentSession, WebSession, SessionState, Message, task_command, task_report, frame,
  server_hello, report_ack, Delivery, Unregister, agent_entry, web_entry, Net, S, Moment,
  device_key, find_agent, set_agent, delete_agent, delete_web, send_to, close_peer, replace_peer,
  register_agent, register_web, unregister, online, dispatch, send_each, publish_report,
  relay_frame, other_device, has_expired,
}

module _ (Trusted : ℕ → String → Type 0) where
  -- The socket may have this message.
  abbrev pub MayHave : ℕ → Message → Type 0
  MayHave peer (task_command c) =
      (tenant_id : String) × (device_id : String) × Trusted peer tenant_id
      × (device_key tenant_id device_id
          ≡ device_key (envelope_of c).tenant_id (envelope_of c).device_id)
  MayHave peer (task_report r) = Trusted peer r.tenant_id
  MayHave peer (frame tenant_id bytes) = Trusted peer tenant_id
  MayHave peer (server_hello tenant_id device_id) = Trusted peer tenant_id
  MayHave peer (report_ack id) = Unit {0}

  abbrev pub AgentTrusted : String × AgentSession → Type 0
  AgentTrusted (key, s) =
      Trusted s.peer s.principal.tenant_id × (key ≡ device_key s.principal.tenant_id s.device_id)

  abbrev pub WebTrusted : WebSession → Type 0
  WebTrusted s = Trusted s.peer s.principal.tenant_id

  abbrev pub SessionTrusted : ℕ × SessionState → Type 0
  SessionTrusted (socket, s) = Trusted socket s.principal.tenant_id

  pub record IsIsolated (n : Net) : Type 0 where
    pub agents : All AgentTrusted n.agents
    pub webs : All WebTrusted n.web_sessions
    pub sessions : All SessionTrusted n.sessions
    pub sent : All (λ d. MayHave d.peer d.message) n.sent

  find_agent-AgentTrusted :
      (key : String) (l : List (String × AgentSession)) (s : AgentSession)
      → All AgentTrusted l
      → find_agent key l ≡ some s
      → AgentTrusted (key, s)
  unfolding find_agent
  find_agent-AgentTrusted key [] s v e = absurd (ground arith)
  find_agent-AgentTrusted key ((k, o) ∷ l) s (first, v) e = elim (Bool-cases (k == key)) [
    | inl same ↦
        let this : o ≡ s = ground (arith, rw same at e) in
        subst (λ x. AgentTrusted (key, x)) this
          (subst (λ x. AgentTrusted (x, o)) ((eq_iff k key).0 same) first)
    | inr other ↦ find_agent-AgentTrusted key l s v (rw other at e)
  ]

  set_agent-AgentTrusted :
      (key : String) (s : AgentSession) (l : List (String × AgentSession))
      → AgentTrusted (key, s)
      → All AgentTrusted l
      → All AgentTrusted (set_agent key s l)
  unfolding set_agent
  set_agent-AgentTrusted key s [] h v = (h, tt)
  set_agent-AgentTrusted key s ((k, o) ∷ l) h (first, v) = elim (Bool-cases (k == key)) [
    | inl same ↦ rw same (subst (λ x. AgentTrusted (x, s)) (sym ((eq_iff k key).0 same)) h, v)
    | inr other ↦ rw other (first, set_agent-AgentTrusted key s l h v)
  ]

  delete_agent-AgentTrusted :
      (key : String) (peer : ℕ) (l : List (String × AgentSession))
      → All AgentTrusted l
      → All AgentTrusted (delete_agent key peer l)
  unfolding delete_agent
  delete_agent-AgentTrusted key peer [] v = tt
  delete_agent-AgentTrusted key peer ((k, o) ∷ l) (first, v) = elim (Bool-cases (k == key)) [
    | inl same ↦ rw same (elim (Bool-cases (nat_eq o.peer peer)) [
      | inl mine ↦ rw mine v
      | inr others ↦ rw others (first, v)
    ])
    | inr other ↦ rw other (first, delete_agent-AgentTrusted key peer l v)
  ]

  delete_web-WebTrusted :
      (serial : ℕ) (l : List WebSession) → All WebTrusted l → All WebTrusted (delete_web serial l)
  unfolding delete_web
  delete_web-WebTrusted serial [] v = tt
  delete_web-WebTrusted serial (s ∷ l) (first, v) = elim (Bool-cases (nat_eq s.serial serial)) [
    | inl this ↦ rw this v
    | inr other ↦ rw other (first, delete_web-WebTrusted serial l v)
  ]

  pub send_to-IsIsolated :
      (peer : ℕ) (m : Message) → MayHave peer m → Preserves IsIsolated (send_to peer m)
  send_to-IsIsolated peer m may = record {
    at = λ n v. record {
      agents = v.agents;
      webs = v.webs;
      sessions = v.sessions;
      sent = (may, v.sent);
    };
  }

  pub close_peer-IsIsolated : (peer code : ℕ) → Preserves IsIsolated (close_peer peer code)
  close_peer-IsIsolated peer code = record {
    at = λ n v. record { agents = v.agents; webs = v.webs; sessions = v.sessions; sent = v.sent };
  }

  replace_peer-IsIsolated :
      (peer : ℕ) (old : Option AgentSession) → Preserves IsIsolated (replace_peer peer old)
  replace_peer-IsIsolated peer none = Preserves-pure tt
  replace_peer-IsIsolated peer (some old) =
      Preserves-if (nat_eq old.peer peer) _ _ (Preserves-pure tt)
        (close_peer-IsIsolated old.peer 4002)

  add_agent-IsIsolated :
      (key : String) (s : AgentSession)
      → AgentTrusted (key, s)
      → Preserves {E = AppError} IsIsolated
          (put_state (λ n. record n { agents = set_agent key s n.agents }))
  add_agent-IsIsolated key s h = record {
    at = λ n v. record {
      agents = set_agent-AgentTrusted key s n.agents h v.agents;
      webs = v.webs;
      sessions = v.sessions;
      sent = v.sent;
    };
  }

  pub register_agent-IsIsolated :
      (peer : ℕ) (p : AuthPrincipal) (device_id : String)
      → Trusted peer p.tenant_id
      → Preserves IsIsolated (register_agent peer p device_id)
  unfolding register_agent
  register_agent-IsIsolated peer p device_id trusted =
      Preserves-bind _ _
        (Preserves-require (not (other_device p.device_id device_id))
          (conflict_error "Device token cannot register another device"))
        λ _. record {
          at = λ n v.
              (Preserves-bind _ _
                  (replace_peer-IsIsolated peer
                    (find_agent (device_key p.tenant_id device_id) n.agents))
                  λ _.
                    Preserves-bind _ _
                      (add_agent-IsIsolated (device_key p.tenant_id device_id)
                        (record { peer = peer; principal = p; device_id = device_id })
                        (trusted, refl))
                      λ _. Preserves-pure (agent_entry (device_key p.tenant_id device_id) peer)).at
                n v;
        }

  pub register_web-IsIsolated :
      (peer : ℕ) (p : AuthPrincipal)
      → Trusted peer p.tenant_id
      → Preserves IsIsolated (register_web peer p)
  unfolding register_web
  register_web-IsIsolated peer p trusted = record {
    at = λ n v. record {
      agents = v.agents;
      webs = All-append WebTrusted n.web_sessions _ v.webs (trusted, tt);
      sessions = v.sessions;
      sent = v.sent;
    };
  }

  pub unregister-IsIsolated :
      (u : Unregister) (n : Net) → IsIsolated n → IsIsolated (unregister u n)
  unfolding unregister
  unregister-IsIsolated (agent_entry key peer) n v = record {
    agents = delete_agent-AgentTrusted key peer n.agents v.agents;
    webs = v.webs;
    sessions = v.sessions;
    sent = v.sent;
  }
  unregister-IsIsolated (web_entry serial) n v = record {
    agents = v.agents;
    webs = delete_web-WebTrusted serial n.web_sessions v.webs;
    sessions = v.sessions;
    sent = v.sent;
  }

  send_each-IsIsolated :
      (t : Moment) (tenant_id : String) (m : Message) (l : List WebSession)
      → ((peer : ℕ) → Trusted peer tenant_id → MayHave peer m)
      → All WebTrusted l
      → Preserves IsIsolated (send_each t tenant_id m l)
  unfolding send_each
  send_each-IsIsolated t tenant_id m [] may v = Preserves-pure tt
  send_each-IsIsolated t tenant_id m (s ∷ l) may (first, v) =
      Preserves-bind _ _
        (send_one (s.principal.tenant_id == tenant_id && t.is_open s.peer) λ h. may s.peer (
          subst (Trusted s.peer) ((eq_iff s.principal.tenant_id tenant_id).0 (ground (arith, h)))
            first))
        λ _. send_each-IsIsolated t tenant_id m l may v
    where
      send_one :
          (b : Bool)
          → (b ≡ true → MayHave s.peer m)
          → Preserves IsIsolated (if b then send_to s.peer m else pure tt)
      send_one true h = send_to-IsIsolated s.peer m (h refl)
      send_one false h = Preserves-pure tt

  pub publish_report-IsIsolated :
      (t : Moment) (r : AgentReport) → Preserves IsIsolated (publish_report t r)
  unfolding publish_report
  publish_report-IsIsolated t r = record {
    at = λ n v.
        (send_each-IsIsolated t r.tenant_id (task_report r) n.web_sessions (λ peer h. h) v.webs).at
          n v;
  }

  pub relay_frame-IsIsolated :
      (t : Moment) (tenant_id : String) (bytes : List ℕ)
      → Preserves IsIsolated (relay_frame t tenant_id bytes)
  unfolding relay_frame
  relay_frame-IsIsolated t tenant_id bytes = record {
    at = λ n v.
        (send_each-IsIsolated t tenant_id (frame tenant_id bytes) n.web_sessions (λ peer h. h)
            v.webs).at
          n v;
  }

  send_command-IsIsolated :
      (t : Moment) (c : AgentCommand) (peer : ℕ)
      → MayHave peer (task_command c)
      → Preserves IsIsolated (
          require
            (not (has_expired (t.parse_date (envelope_of c).expires_at) t.now))
            (conflict_error "Expired task commands cannot be dispatched")
          >> send_to peer (task_command c))
  send_command-IsIsolated t c peer may =
      Preserves-bind _ _
        (Preserves-require (not (has_expired (t.parse_date (envelope_of c).expires_at) t.now))
          (conflict_error "Expired task commands cannot be dispatched"))
        λ _. send_to-IsIsolated peer (task_command c) may

  pub dispatch-IsIsolated : (t : Moment) (c : AgentCommand) → Preserves IsIsolated (dispatch t c)
  unfolding dispatch
  dispatch-IsIsolated t c = record { at = λ n v. go n v (find_agent key n.agents) refl }
    where
      key : String
      key = device_key (envelope_of c).tenant_id (envelope_of c).device_id

      go :
          (n : Net)
          → IsIsolated n
          → (found : Option AgentSession) → find_agent key n.agents ≡ found
          → IsIsolated (dispatch t c n).1
      go n v none e = rw e v
      go n v (some s) e =
          let (trusted, same) = find_agent-AgentTrusted key n.agents s v.agents e in
          elim (Bool-cases (t.is_open s.peer)) [
            | inl up ↦ rw e (
                rw up (
                  (send_command-IsIsolated t c s.peer
                      (s.principal.tenant_id, s.device_id, trusted, sym same)).at
                    n v))
            | inr down ↦ rw e (rw down v)
          ]
