-- ===== src/Base/Separated.antt =====
-- Texts joined by a character: where the first has none of that character, both are determined.
use Prim.Native.Char.{code, Char}
use Prim.Native.String.append
use Prim.Native.String.{String}
use mathlib.Core.Path.{◌≡◌, refl, sym, ap, ◌∙◌}
use mathlib.Core.Bool.{Bool, true, not, ◌&&◌}
use native.Mathlib.Omega.{arith}
use smart_form.Base.Tests.{nat_eq}
use smart_form.Base.Text.{text_concat}

module _ (sep : Char) where
  -- The text has no `sep`.
  abbrev pub lacks : String → Bool
  lacks String.[] = true
  lacks (String.◌∷◌ c s) = not (nat_eq (code c) (code sep)) && lacks s

  abbrev pub separated : String → String → String
  separated s t = text_concat s (String.◌∷◌ sep t)

  cons-injective :
      (a b : Char) (s t : String)
      → ◌≡◌ {A = String} (String.◌∷◌ a s) (String.◌∷◌ b t)
      → (a ≡ b) × (s ≡ t)
  cons-injective a b s t e = (cc, cc)

  sep_refused : (c : Char) (s : String) → lacks (String.◌∷◌ c s) ≡ true → sep ≡ c → ⊥
  sep_refused c s h e = ground (arith, h, ap code e)

  pub separated-injective :
      (s t u v : String)
      → lacks s ≡ true
      → lacks t ≡ true
      → separated s u ≡ separated t v
      → (s ≡ t) × (u ≡ v)
  separated-injective String.[] String.[] u v h k same = (
    refl,
    (cons-injective sep sep u v
        (sym (append.nil (String.◌∷◌ sep u)) ∙ (same ∙ append.nil (String.◌∷◌ sep v)))).1,
  )
  separated-injective String.[] (String.◌∷◌ c t) u v h k same = absurd (
      sep_refused c t k
        (cons-injective sep c u (separated t v)
          (sym (append.nil (String.◌∷◌ sep u)) ∙ (same ∙ append.cons c t (String.◌∷◌ sep v)))).0)
  separated-injective (String.◌∷◌ c s) String.[] u v h k same = absurd (
      sep_refused c s h
        (cons-injective sep c v (separated s u) (
          sym (append.nil (String.◌∷◌ sep v)) ∙ (sym same ∙ append.cons c s (String.◌∷◌ sep u)))).0)
  separated-injective (String.◌∷◌ c s) (String.◌∷◌ b t) u v h k same =
      let (first, rest) =
        cons-injective c b (separated s u) (separated t v) (
          sym (append.cons c s (String.◌∷◌ sep u)) ∙ (same ∙ append.cons b t (String.◌∷◌ sep v))) in
      let (starts, ends) =
        separated-injective s t u v (ground (arith, h)) (ground (arith, k)) rest in
      (cc, ends)
