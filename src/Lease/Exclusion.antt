-- ===== src/Lease/Exclusion.antt =====
-- One holder at a time, and no lease outlives its token.
use smart_form.Base.{
  ℕ, suc, String, ◌≡◌, ◌≢◌, refl, ◌⊎◌, inl, inr, true, false, Option, none, some, List, [], ◌∷◌,
  arith, any, Any, eq_iff, ◌==◌, ◌↔◌, subst, Bool-cases, Option-cases,
}
use smart_form.Base.Exec.{Result, ok, is_err}
use smart_form.Contracts.Artifact.{Failure}
use smart_form.Lease.{
  AutomationExecutor, ControlHolder, automation, human, ControlLease, BrowserProbe, Authority, Urls,
  acquire, assert, resume_after_human, target_changed, is_held_by, same_holder,
}

-- The lease that an authority grants next.
abbrev pub next_lease : Authority → String → ControlHolder → String → ℕ → ControlLease
next_lease a task_id holder uuid now = record {
  task_id = task_id;
  holder = holder;
  token = uuid;
  epoch = suc a.epoch;
  acquired_at = now;
}

abbrev pub holding : Authority → ControlLease → Authority
holding a l = record { lease = some l; epoch = suc a.epoch }

abbrev pub AcquireOutcome : Authority → String → String → AutomationExecutor → ℕ → Type 0
AcquireOutcome a task_id uuid executor now =
    let l = next_lease a task_id (automation executor) uuid now in
    let r = acquire task_id executor uuid now a in
    ((a.lease ≡ none) ↔ (r ≡ (ok l, holding a l))) × ((a.lease ≢ none) ↔ (r.1 ≡ a))

acquire_by_lease :
    (lease : Option ControlLease) (epoch : ℕ) (task_id uuid : String)
    (executor : AutomationExecutor) (now : ℕ)
    → AcquireOutcome (record { lease = lease; epoch = epoch }) task_id uuid executor now
unfolding acquire
acquire_by_lease none n task_id uuid executor now =
    ((λ h. refl, λ h. refl), (λ h. absurd (h refl), λ h. absurd (ground arith)))
acquire_by_lease (some l) n task_id uuid executor now =
    ((λ h. cc, λ h. absurd (ground arith)), (λ h. refl, λ h. cc))

-- `acquire` grants the next lease exactly when nobody holds the browser, and stores what it grants;
-- exactly when somebody holds it, the authority is left as it was.
pub acquire_outcome :
    (a : Authority) (task_id uuid : String) (executor : AutomationExecutor) (now : ℕ)
    → AcquireOutcome a task_id uuid executor now
acquire_outcome a task_id uuid executor now =
    acquire_by_lease a.lease a.epoch task_id uuid executor now

pub acquire_refused :
    (a : Authority) (l : ControlLease) (task_id uuid : String) (executor : AutomationExecutor)
    (now : ℕ)
    → a.lease ≡ some l
    → ((acquire task_id executor uuid now a).1 ≡ a)
      × (is_err (acquire task_id executor uuid now a).0 ≡ true)
unfolding acquire
acquire_refused a l task_id uuid executor now held = (rw held refl, rw held refl)

same_holder_iff : (g h : ControlHolder) → (same_holder g h ≡ true) ↔ (g ≡ h)
same_holder_iff g h = ground arith

is_held_by_iff :
    (token : String) (holder : ControlHolder) (lease : Option ControlLease)
    → (is_held_by token holder lease ≡ true)
      ↔ ((l : ControlLease) × (lease ≡ some l) × (l.token ≡ token) × (l.holder ≡ holder))
is_held_by_iff token holder none = (λ h. cc, λ h. absurd (ground arith))
is_held_by_iff token holder (some l) = (
  λ h. (
    l,
    refl,
    ground (arith, eq_iff l.token token, same_holder_iff l.holder holder),
    ground (arith, eq_iff l.token token, same_holder_iff l.holder holder),
  ),
  λ h. ground (arith, eq_iff l.token token, same_holder_iff l.holder holder, h),
)

-- `assert` accepts a token for a holder exactly when that holder has the lease of that token.
pub assert_iff :
    (a : Authority) (token : String) (holder : ControlHolder)
    → ((assert token holder a).0 ≡ ok tt)
      ↔ ((l : ControlLease) × (a.lease ≡ some l) × (l.token ≡ token) × (l.holder ≡ holder))
unfolding assert
assert_iff a token holder = (
  λ h. (is_held_by_iff token holder a.lease).0 (ground arith),
  λ h. rw ((is_held_by_iff token holder a.lease).1 h) refl,
)

-- What a resumption asks for, stated without the code's tests.
pub record MayResume (urls : Urls) (a : Authority) (token : String) (expected actual : BrowserProbe)
    (allowed : List String) : Type 0 where
  pub lease : ControlLease
  pub held : a.lease ≡ some lease
  pub owned : lease.token ≡ token
  pub by_human : lease.holder ≡ human
  pub host : String
  pub parsed : urls.hostname actual.url ≡ some host
  pub allowed_host : Any (λ domain. urls.lower host ≡ urls.lower domain) allowed
  pub same_target : target_changed expected actual ≡ false

any_eq_iff :
    (urls : Urls) (h : String) (ds : List String)
    → (any (λ domain. h == urls.lower domain) ds ≡ true) ↔ Any (λ domain. h ≡ urls.lower domain) ds
any_eq_iff urls h [] = (λ e. absurd (ground arith), λ e. absurd e)
any_eq_iff urls h (d ∷ ds) = ground (arith, eq_iff h (urls.lower d), any_eq_iff urls h ds)

abbrev pub Granted :
    Authority → AutomationExecutor → String → ℕ → Result Failure ControlLease × Authority → Type 0
Granted a executor uuid now r =
    (l : ControlLease) × (a.lease ≡ some l)
    × (r ≡ (let n = next_lease a l.task_id (automation executor) uuid now in (ok n, holding a n)))

abbrev pub Refused : Authority → Result Failure ControlLease × Authority → Type 0
Refused a r = (is_err r.0 ≡ true) × (r.1 ≡ a)

pub resume_outcome :
    (urls : Urls) (a : Authority) (token uuid : String) (executor : AutomationExecutor)
    (expected actual : BrowserProbe) (allowed : List String) (now : ℕ)
    → let r = resume_after_human urls token executor expected actual allowed uuid now a in
      (MayResume urls a token expected actual allowed × Granted a executor uuid now r)
      ⊎ ((¬ MayResume urls a token expected actual allowed) × Refused a r)
unfolding resume_after_human
resume_outcome urls a token uuid executor expected actual allowed now =
    elim (Bool-cases (is_held_by token human a.lease)) [
      | inl held ↦ elim (Option-cases (urls.hostname actual.url)) [
        | inl bad ↦ inr (λ m. cc (m.parsed), (rw held (rw bad (refl, refl))))
        | inr (h, parsed) ↦
            elim (Bool-cases (any (λ domain. urls.lower h == urls.lower domain) allowed)) [
              | inl inside ↦ elim (Bool-cases (target_changed expected actual)) [
                | inl moved ↦ inr (
                  λ m. cc (m.same_target),
                  (rw held (rw parsed (rw inside (rw moved (refl, refl))))),
                )
                | inr same ↦
                    let (l, some_l, owned, by) = (is_held_by_iff token human a.lease).0 held in
                    inl (
                      record {
                        lease = l;
                        held = some_l;
                        owned = owned;
                        by_human = by;
                        host = h;
                        parsed = parsed;
                        allowed_host = (any_eq_iff urls (urls.lower h) allowed).0 inside;
                        same_target = same;
                      },
                      (l, some_l, rw held (rw parsed (rw inside (rw same (rw some_l refl))))),
                    )
              ]
              | inr outside ↦ inr (
                λ m. cc (
                    (any_eq_iff urls (urls.lower h) allowed).1 (
                      subst (λ x. Any (λ domain. urls.lower x ≡ urls.lower domain) allowed)
                        (ground (arith, parsed, m.parsed)) m.allowed_host)),
                (rw held (rw parsed (rw outside (refl, refl)))),
              )
            ]
      ]
      | inr free ↦ inr (
        λ m. cc ((is_held_by_iff token human a.lease).1 (m.lease, m.held, m.owned, m.by_human)),
        (rw free (refl, refl)),
      )
    ]
