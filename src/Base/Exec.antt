-- ===== src/Base/Exec.antt =====
-- Asynchronous methods that change an object and may throw: what was written before a throw stays
-- written, so the state comes back beside the error too.
pub mod Preserves
use mathlib.Core.Path.{◌≡◌, refl}
use mathlib.Core.Bool.{Bool, true, false}

pub data Result {ℓ} (E A : Type ℓ) : Type ℓ where
  ok : A → Result E A
  err : E → Result E A

abbrev pub is_err {ℓ} : {E A : Type ℓ} → Result E A → Bool
is_err (ok a) = false
is_err (err e) = true

abbrev pub Exec {ℓ} : Type ℓ → Type ℓ → Type ℓ → Type ℓ
Exec E S A = S → Result E A × S

module _ {ℓ} {E S A : Type ℓ} where
  abbrev pub pure : A → Exec E S A
  pure a s = (ok a, s)

  abbrev pub throw : E → Exec E S A
  throw e s = (err e, s)

  abbrev pub gets : (S → A) → Exec E S A
  gets f s = (ok (f s), s)

  abbrev pub recover : Result E A × S → (E → Exec E S A) → Result E A × S
  recover (ok a, s) handler = (ok a, s)
  recover (err e, s) handler = handler e s

  -- `try { m } catch (e) { handler(e) }`.
  abbrev pub try_catch : Exec E S A → (E → Exec E S A) → Exec E S A
  try_catch m handler s = recover (m s) handler

abbrev pub put_state {ℓ} : {E S : Type ℓ} → (S → S) → Exec E S Unit
put_state f s = (ok tt, f s)

abbrev pub complete {ℓ} : {E A B : Type ℓ} → Result E A → Result E B → Result E A
complete r (ok b) = r
complete r (err e) = err e

module _ {ℓ} {E S A B : Type ℓ} where
  abbrev pub continue : Result E A → (A → Exec E S B) → Exec E S B
  continue (ok a) f s = f a s
  continue (err e) f s = (err e, s)

  infixl 10 ◌>>=◌ ◌>>◌
  abbrev pub ◌>>=◌ : Exec E S A → (A → Exec E S B) → Exec E S B
  ◌>>=◌ m f s = continue (m s).0 f (m s).1

  abbrev pub ◌>>◌ : Exec E S A → Exec E S B → Exec E S B
  ◌>>◌ m n = m >>= λ _. n

  -- `try { m } finally { last }`: an error of `last` replaces the outcome.
  abbrev pub try_finally : Exec E S A → Exec E S B → Exec E S A
  try_finally m last s = (complete (m s).0 (last (m s).1).0, (last (m s).1).1)

-- `if (!test) throw e`.
abbrev pub require {ℓ} : {E S : Type ℓ} → Bool → E → Exec E S Unit
require true e = pure tt
require false e = throw e

-- A method of a part, as one of the whole that holds it.
pub record Part {ℓ} (S T : Type ℓ) : Type ℓ where
  pub get : S → T
  pub set : T → S → S

abbrev pub zoom {ℓ} : {E S T A : Type ℓ} → Part S T → Exec E T A → Exec E S A
zoom p m s = ((m (p.get s)).0, p.set (m (p.get s)).1 s)
