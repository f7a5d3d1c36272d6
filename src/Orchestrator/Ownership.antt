-- ===== src/Orchestrator/Ownership.antt =====
-- One owner of the browser: whoever holds the control lease is the executor of the active task, or
-- the human it was handed to; and a write task is never the sidecar's.
use smart_form.Base.{
  ℕ, String, ◌≡◌, ◌⊎◌, inl, inr, true, Option, none, some, List, arith, is_some, Option-cases,
  eq_refl,
}
use smart_form.Base.Exec.Preserves.{
  Preserves, Leads, Leads-bind, Leads-Preserves, Preserves-bind, preserves_rules,
}
use smart_form.Contracts.Task.{is_write}
use smart_form.Contracts.Protocol.{StartTaskCommand}
use smart_form.Lease.{
  playwright_runner, ControlLease, BrowserProbe, Authority, automation, human, acquire,
  transfer_to_human, release,
}
use smart_form.Lease.Exclusion.{resume_outcome}
use smart_form.Orchestrator.Quiet.{Holds, ask-Holds, probe-Holds, save_checkpoint-Holds, draw-Holds}
use smart_form.Orchestrator.Host.{Host, ActiveTask, State}
use smart_form.Orchestrator.Start.{take_control, take_stamped, draw, idle}
use smart_form.Orchestrator.Execution.{
  give_lease, hand_over, take_back, take_back_stamped, release_active_lease, clear_active,
}

-- The executor fits the task's mode.
abbrev pub IsFit : ActiveTask → Type 0
IsFit a = is_write a.command.task.mode ≡ true → a.executor ≡ playwright_runner

abbrev pub Owns : Option ActiveTask → Option ControlLease → Type 0
Owns none none = Unit {0}
Owns none (some l) = ⊥
Owns (some a) none = IsFit a
Owns (some a) (some l) =
    IsFit a × (a.lease ≡ l) × ((l.holder ≡ human) ⊎ (l.holder ≡ automation a.executor))

abbrev pub OwnsBrowser : Option ActiveTask → Authority → Type 0
OwnsBrowser active control = Owns active control.lease

-- Nobody but the active task has the browser.
abbrev pub IsOwned : {W : Type 0} → State W → Type 0
IsOwned = Holds OwnsBrowser

-- The same, while `a` is the active task.
abbrev pub OwnsAs : ActiveTask → Option ActiveTask → Authority → Type 0
OwnsAs a active control = OwnsBrowser active control × (active ≡ some a)

-- Once the active task has let go of the browser, nobody has it.
abbrev pub LetGo : Option ActiveTask → Authority → Type 0
LetGo active control = (control.lease ≡ none) × Owns active none

pub OwnsAs-IsOwned : {W : Type 0} (a : ActiveTask) (s : State W) → Holds (OwnsAs a) s → IsOwned s
OwnsAs-IsOwned a s v = record { fact = v.fact.0 }

pub LetGo-IsOwned : {W : Type 0} (s : State W) → Holds LetGo s → IsOwned s
LetGo-IsOwned s v = record { fact = rw (v.fact.0) v.fact.1 }

module _ {W : Type 0} (h : Host W) where
  take_control_at :
      (c : StartTaskCommand) (artifact : Option (List ℕ)) (stamp : String × ℕ) (s : State W)
      → (is_write c.task.mode ≡ true → is_some artifact ≡ true)
      → IsOwned s
      → IsOwned (take_stamped h c artifact stamp s).1
  unfolding take_stamped acquire
  take_control_at c artifact stamp s fit v = ground (arith, v.fact)

  -- The task that takes the browser has the lease that it stores.
  pub take_control-IsOwned :
      (c : StartTaskCommand) (artifact : Option (List ℕ))
      → (is_write c.task.mode ≡ true → is_some artifact ≡ true)
      → Preserves IsOwned (take_control h c artifact)
  unfolding take_control
  take_control-IsOwned c artifact fit =
      Preserves-bind _ _ (draw-Holds OwnsBrowser h)
        λ stamp. record { at = λ s v. take_control_at c artifact stamp s fit v }

  give_lease-IsOwned :
      (a : ActiveTask) (expected : BrowserProbe) → Preserves IsOwned (give_lease h a expected)
  unfolding give_lease transfer_to_human draw
  give_lease-IsOwned a expected = record { at = λ s v. ground (arith, v.fact) }

  pub hand_over-IsOwned : (a : ActiveTask) → Preserves IsOwned (hand_over h a)
  unfolding hand_over
  hand_over-IsOwned a = Preserves-bind _ _ (probe-Holds OwnsBrowser h) λ e. search (
    preserves_rules,
    give_lease-IsOwned a e,
    ask-Holds OwnsBrowser h.bring_to_front,
    save_checkpoint-Holds OwnsBrowser h "WAITING_HUMAN" e,
  )

  take_back_at :
      (a : ActiveTask) (expected actual : BrowserProbe) (stamp : String × ℕ) (s : State W)
      → Holds (OwnsAs a) s
      → IsOwned (take_back_stamped h a expected actual stamp s).1
  unfolding take_back_stamped
  take_back_at a expected actual stamp s v = ground (
    arith,
    v.fact,
    resume_outcome h.urls s.control a.lease.token stamp.0 a.executor expected actual
        a.command.task.site.allowed_domains stamp.1,
  )

  pub take_back-IsOwned :
      (a : ActiveTask) (expected actual : BrowserProbe)
      → Leads (Holds (OwnsAs a)) IsOwned (take_back h a expected actual)
  unfolding take_back
  take_back-IsOwned a expected actual =
      Leads-bind _ _ (OwnsAs-IsOwned a) (Leads-Preserves (draw-Holds (OwnsAs a) h))
        λ stamp. record { at = take_back_at a expected actual stamp }

  pub release-LetGo : Leads IsOwned (Holds LetGo) (release_active_lease h)
  unfolding release_active_lease release
  release-LetGo = record {
    at = λ s v. elim (Option-cases s.active) [
      | inl idle ↦ record { fact = ground (arith, v.fact) }
      | inr (a, busy) ↦ elim (Option-cases s.control.lease) [
        | inl free ↦ record { fact = ground (arith, v.fact) }
        | inr (l, held) ↦ record { fact = ground (arith, v.fact, eq_refl l.token) }
      ]
    ];
  }

  pub clear-IsOwned : Leads (Holds LetGo) IsOwned (clear_active h)
  clear-IsOwned = record { at = λ s v. record { fact = rw v.fact.0 tt } }
