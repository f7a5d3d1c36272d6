-- ===== src/Base/Exec/Preserves.antt =====
-- Invariants of methods that may throw: one rule for each way a method is put together.
use mathlib.Core.Path.{◌≡◌, refl, subst}
use mathlib.Core.Bool.{Bool, true, false}
use native.Mathlib.Omega.{arith}
use smart_form.Base.Tests.{if◌then◌else◌}
use smart_form.Base.Exec.{
  Result, ok, err, Exec, pure, throw, gets, put_state, ◌>>=◌, ◌>>◌, continue, require, try_catch,
  recover, try_finally,
}

-- Whether `m` returns or throws, it leaves a state of `P` in `P`.
pub record Preserves {E S A : Type 0} (P : S → Type 0) (m : Exec E S A) : Type 0 where
  pub at : (s : S) → P s → P (m s).1

-- Whatever `m` returns is in `Q`.
pub record Yields {E S A : Type 0} (Q : A → Type 0) (m : Exec E S A) : Type 0 where
  pub at : (s : S) (a : A) → (m s).0 ≡ ok a → Q a

module _ {E S A : Type 0} {P : S → Type 0} where
  pub Preserves-pure : (a : A) → Preserves {E = E} P (pure a)
  Preserves-pure a = record { at = λ s p. p }

  pub Preserves-throw : (e : E) → Preserves {A = A} P (throw e)
  Preserves-throw e = record { at = λ s p. p }

  pub Preserves-gets : (f : S → A) → Preserves {E = E} P (gets f)
  Preserves-gets f = record { at = λ s p. p }

  pub Preserves-if :
      (b : Bool) (m n : Exec E S A)
      → Preserves P m
      → Preserves P n
      → Preserves P (if b then m else n)
  Preserves-if true m n keeps_m keeps_n = keeps_m
  Preserves-if false m n keeps_m keeps_n = keeps_n

module _ {E S : Type 0} {P : S → Type 0} where
  pub Preserves-require : (b : Bool) (e : E) → Preserves P (require b e)
  Preserves-require true e = record { at = λ s p. p }
  Preserves-require false e = record { at = λ s p. p }

  pub Preserves-put : (f : S → S) → ((s : S) → P s → P (f s)) → Preserves {E = E} P (put_state f)
  Preserves-put f keeps = record { at = λ s p. keeps s p }

module _ {E S A B : Type 0} {P : S → Type 0} where
  continue-keeps :
      (r : Result E A) (f : A → Exec E S B) (s : S)
      → ((a : A) → r ≡ ok a → Preserves P (f a))
      → P s
      → P (continue r f s).1
  continue-keeps (ok a) f s keeps p = (keeps a refl).at s p
  continue-keeps (err e) f s keeps p = p

  pub Preserves-bind :
      (m : Exec E S A) (f : A → Exec E S B)
      → Preserves P m
      → ((a : A) → Preserves P (f a))
      → Preserves P (m >>= f)
  Preserves-bind m f keeps_m keeps_f = record {
    at = λ s p. continue-keeps (m s).0 f (m s).1 (λ a _. keeps_f a) (keeps_m.at s p);
  }

  -- What follows may use what is known of the results of `m`.
  pub Preserves-bind_known :
      (Q : A → Type 0) (m : Exec E S A) (f : A → Exec E S B)
      → Preserves P m
      → Yields Q m
      → ((a : A) → Q a → Preserves P (f a))
      → Preserves P (m >>= f)
  Preserves-bind_known Q m f keeps_m known keeps_f = record {
    at = λ s p.
        continue-keeps (m s).0 f (m s).1 (λ a e. keeps_f a (known.at s a e)) (keeps_m.at s p);
  }

module _ {E S A : Type 0} {P : S → Type 0} where
  recover-keeps :
      (r : Result E A) (s : S) (handler : E → Exec E S A)
      → ((e : E) → Preserves P (handler e))
      → P s
      → P (recover (r, s) handler).1
  recover-keeps (ok a) s handler keeps p = p
  recover-keeps (err e) s handler keeps p = (keeps e).at s p

  pub Preserves-try_catch :
      (m : Exec E S A) (handler : E → Exec E S A)
      → Preserves P m
      → ((e : E) → Preserves P (handler e))
      → Preserves P (try_catch m handler)
  Preserves-try_catch m handler keeps_m keeps_h = record {
    at = λ s p. recover-keeps (m s).0 (m s).1 handler keeps_h (keeps_m.at s p);
  }

pub ruleset preserves_rules = (
  Preserves-pure, Preserves-throw, Preserves-gets, Preserves-if, Preserves-require, Preserves-bind,
)

-- Whether `m` returns or throws, it leads from `P` to `Q`.
pub record Leads {E S A : Type 0} (P Q : S → Type 0) (m : Exec E S A) : Type 0 where
  pub at : (s : S) → P s → Q (m s).1

pub Leads-Preserves :
    {E S A : Type 0} {P : S → Type 0} {m : Exec E S A} → Preserves P m → Leads P P m
Leads-Preserves keeps = record { at = keeps.at }

module _ {E S A B : Type 0} {Q R : S → Type 0} where
  continue-leads :
      (r : Result E A) (f : A → Exec E S B) (s : S)
      → ((t : S) → Q t → R t)
      → ((a : A) → Leads Q R (f a))
      → Q s
      → R (continue r f s).1
  continue-leads (ok a) f s weaker leads q = (leads a).at s q
  continue-leads (err e) f s weaker leads q = weaker s q

  pub Leads-bind :
      {P : S → Type 0} (m : Exec E S A) (f : A → Exec E S B)
      → ((s : S) → Q s → R s)
      → Leads P Q m
      → ((a : A) → Leads Q R (f a))
      → Leads P R (m >>= f)
  Leads-bind m f weaker leads_m leads_f = record {
    at = λ s p. continue-leads (m s).0 f (m s).1 weaker leads_f (leads_m.at s p);
  }

pub Leads-weaken :
    {E S A : Type 0} {P Q : S → Type 0} {m : Exec E S A}
    → ((s : S) → P s → Q s)
    → Preserves Q m
    → Leads P Q m
Leads-weaken weaker keeps = record { at = λ s p. keeps.at s (weaker s p) }

ok-injective : {E A : Type 0} (a b : A) → ◌≡◌ {A = Result E A} (ok a) (ok b) → a ≡ b
ok-injective a b e = cc

pub Yields-pure :
    {E S A : Type 0} {Q : A → Type 0} (a : A) → Q a → Yields {E = E} {S = S} Q (pure a)
Yields-pure {Q = Q} a q = record { at = λ s b e. subst Q (ok-injective a b e) q }

module _ {E S A B : Type 0} {Q : B → Type 0} where
  continue-yields :
      (r : Result E A) (f : A → Exec E S B) (s : S) (b : B)
      → ((a : A) → r ≡ ok a → Yields Q (f a))
      → (continue r f s).0 ≡ ok b
      → Q b
  continue-yields (ok a) f s b yields e = (yields a refl).at s b e
  continue-yields (err x) f s b yields e = absurd (ground arith)

  pub Yields-bind :
      (m : Exec E S A) (f : A → Exec E S B) → ((a : A) → Yields Q (f a)) → Yields Q (m >>= f)
  Yields-bind m f yields = record {
    at = λ s b e. continue-yields (m s).0 f (m s).1 b (λ a _. yields a) e;
  }

  pub Yields-bind_known :
      (R : A → Type 0) (m : Exec E S A) (f : A → Exec E S B)
      → Yields R m
      → ((a : A) → R a → Yields Q (f a))
      → Yields Q (m >>= f)
  Yields-bind_known R m f known yields = record {
    at = λ s b e. continue-yields (m s).0 f (m s).1 b (λ a h. yields a (known.at s a h)) e;
  }

module _ {E S : Type 0} where
  pub Yields-require : (b : Bool) (e : E) → Yields {S = S} (λ _. b ≡ true) (require b e)
  Yields-require true e = record { at = λ s a h. refl }
  Yields-require false e = record { at = λ s a h. absurd (ground arith) }

module _ {E S A B : Type 0} {P : S → Type 0} where
  pub Preserves-try_finally :
      (m : Exec E S A) (last : Exec E S B)
      → Preserves P m
      → Preserves P last
      → Preserves P (try_finally m last)
  Preserves-try_finally m last keeps_m keeps_last = record {
    at = λ s p. keeps_last.at (m s).1 (keeps_m.at s p);
  }

-- What follows a test may use its outcome.
pub Preserves-guard :
    {E S A : Type 0} {P : S → Type 0} (b : Bool) (e : E) (m : Exec E S A)
    → (b ≡ true → Preserves P m)
    → Preserves P (require b e >> m)
Preserves-guard true e m keeps = record { at = (keeps refl).at }
Preserves-guard false e m keeps = record { at = λ s p. p }
