-- ===== src/Sidecar/Broken.antt =====
-- A process that could not be spawned.
use smart_form.Base.{
  ℕ, Bool, true, false, ◌≡◌, Option, none, some, List, [], ◌∷◌, if◌then◌else◌, nat_eq,
}
use smart_form.Sidecar.{Client, Outcome, rejected}
use smart_form.Sidecar.Process.{Event, stops, startup_due, exits}

-- The events at which the client lets its process go: `stop`, the startup timer, which is cleared by
-- then, and an exit, which a process that was not spawned does not have.
abbrev pub lets_go : Event → Bool
lets_go stops = true
lets_go (startup_due child) = true
lets_go (exits child) = true
lets_go e = false

-- The part of the client that a request does not touch.
abbrev core : Client → Option ℕ × (ℕ × List (ℕ × Outcome))
core s = (s.ready_promise, (s.children, s.ready_states))

-- How the promise of the process was settled.
abbrev pub outcome_of : ℕ → List (ℕ × Outcome) → Option Outcome
outcome_of child [] = none
outcome_of child ((c, o) ∷ rest) = if nat_eq c child then some o else outcome_of child rest

-- The client's promise of `start` is that of the process, it was rejected, and `n` were spawned.
pub record IsStuck (child n : ℕ) (s : Client) : Type 0 where
  pub promise : s.ready_promise ≡ some child
  pub children : s.children ≡ n
  pub outcome : outcome_of child s.ready_states ≡ some rejected
