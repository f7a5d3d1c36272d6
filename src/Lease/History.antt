-- ===== src/Lease/History.antt =====
-- The leases granted over a history of calls.
use smart_form.Base.{
  ℕ, suc, ◌<◌, String, ◌≡◌, refl, ◌⊎◌, inl, inr, true, not, ◌&&◌, Option, none, some, List, [], ◌∷◌,
  arith, subst, ◌==◌, Option-cases, Bool-cases,
}
use smart_form.Base.Exec.{Result, ok, err, is_err, Part, pure}
use smart_form.Contracts.Artifact.{Failure}
use smart_form.Lease.{
  AutomationExecutor, automation, human, ControlLease, BrowserProbe, Authority, Urls, acquire,
  transfer_to_human, resume_after_human, release, fresh, is_human,
}
use smart_form.Lease.Exclusion.{
  acquire_outcome, acquire_refused, resume_outcome, holding, next_lease,
}

-- One call each; nothing else happens while a transfer drains.
pub data Call : Type 0 where
  acquires : String → AutomationExecutor → String → ℕ → Call
  transfers : String → String → ℕ → Call
  resumes :
      String → AutomationExecutor → BrowserProbe → BrowserProbe → List String → String → ℕ → Call
  releases : String → Call

abbrev whole : Part Authority Authority
whole = record { get = λ a. a; set = λ a _. a }

pub record Log : Type 0 where
  pub authority : Authority
  -- Newest first.
  pub granted : List ControlLease

abbrev noted : Result Failure ControlLease × Authority → List ControlLease → Log
noted (ok l, a) ls = record { authority = a; granted = l ∷ ls }
noted (err e, a) ls = record { authority = a; granted = ls }

module _ (urls : Urls) where
  pub serve : Log → Call → Log
  serve log (acquires task_id executor uuid now) =
      noted (acquire task_id executor uuid now log.authority) log.granted
  serve log (transfers token uuid now) =
      noted (transfer_to_human whole token (pure tt) (pure (uuid, now)) log.authority) log.granted
  serve log (resumes token executor expected actual allowed uuid now) =
      noted (resume_after_human urls token executor expected actual allowed uuid now log.authority)
        log.granted
  serve log (releases token) = record log { authority = (release token log.authority).1 }

  pub serve_all : Log → List Call → Log
  serve_all log [] = log
  serve_all log (c ∷ cs) = serve_all (serve log c) cs

abbrev pub Descends : ℕ → List ControlLease → Type 0
Descends n [] = Unit {0}
Descends n (l ∷ ls) = (l.epoch < n) × Descends l.epoch ls

-- The lease held, if there is one, is the one granted last.
abbrev pub IsNewest : Option ControlLease → List ControlLease → Type 0
IsNewest none ls = Unit {0}
IsNewest (some l) [] = ⊥
IsNewest (some l) (g ∷ gs) = l ≡ g

pub record IsFaithful (log : Log) : Type 0 where
  pub descends : Descends (suc log.authority.epoch) log.granted
  pub newest : IsNewest log.authority.lease log.granted

-- What a call that may grant a lease does to the authority.
abbrev Grants : Authority → Result Failure ControlLease × Authority → Type 0
Grants a r =
    ((r.1 ≡ a) × (is_err r.0 ≡ true))
    ⊎ ((l : ControlLease) × (l.epoch ≡ suc a.epoch) × (r ≡ (ok l, holding a l)))

noted-IsFaithful :
    (log : Log) (r : Result Failure ControlLease × Authority)
    → Grants log.authority r
    → IsFaithful log
    → IsFaithful (noted r log.granted)
noted-IsFaithful log (ok l, a) (inl (same, e)) v = absurd (ground arith)
noted-IsFaithful log (err g, a) (inl (same, e)) v = record {
  descends = rw same v.descends;
  newest = rw same v.newest;
}
noted-IsFaithful log (ok l, a) (inr (l', next, e)) v =
    let this : suc log.authority.epoch ≡ l.epoch = ground arith in
    let held : some l ≡ a.lease = ground arith in
    record {
      descends = (ground arith, subst (λ n. Descends n log.granted) this v.descends);
      newest = subst (λ o. IsNewest o (l ∷ log.granted)) held refl;
    }
noted-IsFaithful log (err g, a) (inr (l', next, e)) v = absurd (ground arith)

acquire-Grants :
    (a : Authority) (task_id uuid : String) (executor : AutomationExecutor) (now : ℕ)
    → Grants a (acquire task_id executor uuid now a)
acquire-Grants a task_id uuid executor now = elim (Option-cases a.lease) [
  | inl free ↦ inr (_, refl, (acquire_outcome a task_id uuid executor now).0.0 free)
  | inr (l, held) ↦ inl (acquire_refused a l task_id uuid executor now held)
]

transfer-Grants :
    (a : Authority) (token uuid : String) (now : ℕ)
    → Grants a (transfer_to_human whole token (pure tt) (pure (uuid, now)) a)
unfolding transfer_to_human
transfer-Grants a token uuid now = elim (Option-cases a.lease) [
  | inl free ↦ inl (rw free (refl, refl))
  | inr (l, held) ↦ elim (Bool-cases (l.token == token && not (is_human l.holder))) [
    | inl automated ↦ inr (next_lease a l.task_id human uuid now, refl, rw held (rw automated refl))
    | inr refused ↦ inl (rw held (rw refused (refl, refl)))
  ]
]

resume-Grants :
    (urls : Urls) (a : Authority) (token uuid : String) (executor : AutomationExecutor)
    (expected actual : BrowserProbe) (allowed : List String) (now : ℕ)
    → Grants a (resume_after_human urls token executor expected actual allowed uuid now a)
resume-Grants urls a token uuid executor expected actual allowed now =
    elim (resume_outcome urls a token uuid executor expected actual allowed now) [
      | inl (m, (l, held, e)) ↦ inr (next_lease a l.task_id (automation executor) uuid now, refl, e)
      | inr (m, (failed, same)) ↦ inl (same, failed)
    ]

release_by_lease :
    (lease : Option ControlLease) (epoch : ℕ) (token : String)
    → let a : Authority = record { lease = lease; epoch = epoch } in
      ((release token a).1 ≡ a) ⊎ ((release token a).1 ≡ record { lease = none; epoch = epoch })
unfolding release
release_by_lease none n token = inl refl
release_by_lease (some l) n token = elim (Bool-cases (l.token == token)) [
  | inl mine ↦ inr (rw mine refl)
  | inr other ↦ inl (rw other refl)
]

serve-IsFaithful :
    (urls : Urls) (log : Log) (c : Call) → IsFaithful log → IsFaithful (serve urls log c)
unfolding serve
serve-IsFaithful urls log (acquires task_id executor uuid now) v =
    noted-IsFaithful log _ (acquire-Grants log.authority task_id uuid executor now) v
serve-IsFaithful urls log (transfers token uuid now) v =
    noted-IsFaithful log _ (transfer-Grants log.authority token uuid now) v
serve-IsFaithful urls log (resumes token executor expected actual allowed uuid now) v =
    noted-IsFaithful log _
      (resume-Grants urls log.authority token uuid executor expected actual allowed now) v
serve-IsFaithful urls log (releases token) v =
    elim (release_by_lease log.authority.lease log.authority.epoch token) [
      | inl same ↦ record { descends = rw same v.descends; newest = rw same v.newest }
      | inr gone ↦ record { descends = rw gone v.descends; newest = rw gone tt }
    ]

serve_all-IsFaithful :
    (urls : Urls) (log : Log) (cs : List Call) → IsFaithful log → IsFaithful (serve_all urls log cs)
unfolding serve_all
serve_all-IsFaithful urls log [] v = v
serve_all-IsFaithful urls log (c ∷ cs) v =
    serve_all-IsFaithful urls (serve urls log c) cs (serve-IsFaithful urls log c v)

-- Over every history of calls on a new authority the epochs of the leases granted increase strictly,
-- the last of them at most the authority's, and the lease held, if any, is the one granted last.
pub history-IsFaithful :
    (urls : Urls) (cs : List Call)
    → IsFaithful (serve_all urls (record { authority = fresh; granted = [] }) cs)
unfolding fresh
history-IsFaithful urls cs = serve_all-IsFaithful urls _ cs (record { descends = tt; newest = tt })
