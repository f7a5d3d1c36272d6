-- ===== src/Realtime/Commands.antt =====
-- Whose commands a client passes on.
use smart_form.Base.{◌≡◌, some, List, [], ◌∷◌, All-append, All, arith, eq_iff}
use smart_form.Contracts.Protocol.{AgentCommand, envelope_of}
use smart_form.Realtime.Quiet.{commands}
use smart_form.Realtime.Handled.{Admits, IsKept, happen_all-Quiet}
use smart_form.Realtime.{AgentRealtimeClientConfig, report_ack, Client, Reports}
use smart_form.Realtime.Handlers.{happen_all, Event, message_came}

module _ (c : AgentRealtimeClientConfig) (reports : Reports) where
  -- The command is for this device of this tenant.
  abbrev pub IsOwn : AgentCommand → Type 0
  IsOwn k = ((envelope_of k).tenant_id ≡ c.tenant_id) × ((envelope_of k).device_id ≡ c.device_id)

  IsOwn-IsKept : IsKept c reports (λ j. Unit {0}) (λ db ks. All IsOwn ks)
  IsOwn-IsKept = record {
    queue = λ r db ks h. h;
    drop_row = λ id allowed db ks h. h;
    pass = λ k own db ks h. All-append IsOwn ks (k ∷ []) h (
      ground (
        arith,
        eq_iff (envelope_of k).tenant_id c.tenant_id,
        eq_iff (envelope_of k).device_id c.device_id,
      ),
      tt,
    );
  }

  admitted : (e : Event) → Admits (λ j. Unit {0}) e
  admitted (message_came i (report_ack (some j))) = tt
  admitted _ = tt

  all_admitted : (es : List Event) → All (Admits (λ j. Unit {0})) es
  all_admitted [] = tt
  all_admitted (e ∷ es) = (admitted e, all_admitted es)

  -- Whatever happens, every command that was passed on is for this device of this tenant.
  pub passed_commands-IsOwn :
      (es : List Event) (s : Client)
      → All IsOwn (commands s.notices)
      → All IsOwn (commands (happen_all c reports es s).notices)
  passed_commands-IsOwn es s h =
      (happen_all-Quiet c reports (λ j. Unit {0}) (λ db ks. All IsOwn ks) IsOwn-IsKept es s
        (all_admitted es) (record { fact = h })).fact
