-- ===== src/Explore/Secrets.antt =====
-- What was typed into a secret field reaches neither the normalised trace nor a program.
use smart_form.Base.{
  String, ◌≡◌, refl, ap, ◌⊎◌, inl, inr, Bool, true, false, Option, List, [], ◌∷◌, arith, any,
  Bool-cases,
}
use smart_form.Base.Exec.{ok}
use smart_form.Base.Exec.Preserves.{Yields, Yields-pure, Yields-bind_known}
use smart_form.Contracts.Program.{CapabilityStep}
use smart_form.Explore.{
  TraceStep, ActionTrace, ActionType, navigate, click, fill, select, extract, human_secret_input,
  commit, submit, is_secret, continues, push_step, add_step, add_steps, reversed_onto, normalize,
  compile_step, compile_steps, compile_to_program,
}

abbrev pub is_human : TraceStep → Bool
is_human s = elim s.action_type [ human_secret_input ↦ true | _ ↦ false ]

push_step-human :
    (clean : List TraceStep) (s : TraceStep)
    → any is_human clean ≡ true
    → any is_human (push_step clean s) ≡ true
unfolding push_step
push_step-human [] s h = absurd (ground arith)
push_step-human (last ∷ clean) s h = elim (Bool-cases (continues last s)) [
  | inl same ↦ rw same h
  | inr other ↦ rw other (ground (arith, h))
]

add_step-human :
    (clean : List TraceStep) (s : TraceStep)
    → (any is_human clean ≡ true) ⊎ (is_secret s ≡ true)
    → any is_human (add_step clean s) ≡ true
unfolding add_step
add_step-human clean s h = elim (Bool-cases (is_secret s)) [
  | inl secret ↦ rw secret refl
  | inr plain ↦ rw plain (push_step-human clean s (ground (arith, h, plain)))
]

add_steps-human :
    (clean steps : List TraceStep)
    → (any is_human clean ≡ true) ⊎ (any is_secret steps ≡ true)
    → any is_human (add_steps clean steps) ≡ true
unfolding add_steps
add_steps-human clean [] h = ground (arith, h)
add_steps-human clean (s ∷ steps) h = elim (Bool-cases (any is_secret steps)) [
  | inl later ↦ add_steps-human (add_step clean s) steps (inr later)
  | inr never ↦
      add_steps-human (add_step clean s) steps
        (inl (add_step-human clean s (ground (arith, h, never))))
]

any-reversed_onto :
    (p : TraceStep → Bool) (acc steps : List TraceStep)
    → (any p acc ≡ true) ⊎ (any p steps ≡ true)
    → any p (reversed_onto acc steps) ≡ true
unfolding reversed_onto
any-reversed_onto p acc [] h = ground (arith, h)
any-reversed_onto p acc (s ∷ steps) h = any-reversed_onto p (s ∷ acc) steps (ground (arith, h))

normalize-human :
    (t : ActionTrace) → any is_secret t.steps ≡ true → any is_human (normalize t).steps ≡ true
unfolding normalize
normalize-human t h =
    any-reversed_onto is_human [] (add_steps [] t.steps) (inr (add_steps-human [] t.steps (inr h)))

module _ {S : Type 0} where
  compile_step-Yields :
      (s : TraceStep) (kind : ActionType)
      → s.action_type ≡ kind
      → Yields {S = S} (λ _. is_human s ≡ false) (compile_step s kind)
  unfolding compile_step
  compile_step-Yields s human_secret_input h = record { at = λ x a e. absurd (ground arith) }
  compile_step-Yields s navigate h = record { at = λ x a e. rw h refl }
  compile_step-Yields s click h = record { at = λ x a e. rw h refl }
  compile_step-Yields s fill h = record { at = λ x a e. rw h refl }
  compile_step-Yields s select h = record { at = λ x a e. rw h refl }
  compile_step-Yields s extract h = record { at = λ x a e. rw h refl }
  compile_step-Yields s commit h = record { at = λ x a e. rw h refl }
  compile_step-Yields s submit h = record { at = λ x a e. rw h refl }

  compile_steps-Yields :
      (steps : List TraceStep)
      → Yields {S = S} (λ _. any is_human steps ≡ false) (compile_steps steps)
  unfolding compile_steps
  compile_steps-Yields [] = Yields-pure [] refl
  compile_steps-Yields (s ∷ steps) =
      Yields-bind_known (λ _. is_human s ≡ false) _ _ (compile_step-Yields s s.action_type refl)
        λ step first.
          Yields-bind_known (λ _. any is_human steps ≡ false) _ _ (compile_steps-Yields steps)
            λ rest later. Yields-pure _ (ground (arith, first, later))

-- A trace compiles into a program after its normalisation only if none of its steps is of a secret
-- field: no program holds what was typed into one.
pub compile-normalize :
    {S : Type 0} (t : ActionTrace) (s : S) (program : List CapabilityStep)
    → (compile_to_program (normalize t) s).0 ≡ ok program
    → any is_secret t.steps ≡ false
compile-normalize t s program compiled = elim (Bool-cases (any is_secret t.steps)) [
  | inl secret ↦ absurd (
      ground (
        arith,
        normalize-human t secret,
        (compile_steps-Yields (normalize t).steps).at s program compiled,
      ))
  | inr plain ↦ plain
]

-- The steps differ in nothing but the values of secret fields.
abbrev pub SameButSecrets : List TraceStep → List TraceStep → Type 0
SameButSecrets [] [] = Unit {0}
SameButSecrets (s ∷ ss) (t ∷ ts) =
    ((s ≡ t) ⊎ ((is_secret s ≡ true) × ((v : Option String) × (t ≡ record s { value = v }))))
    × SameButSecrets ss ts
SameButSecrets _ _ = ⊥

is_secret-value :
    (s : TraceStep) (v : Option String) → is_secret (record s { value = v }) ≡ is_secret s
unfolding is_secret
is_secret-value s v = refl

add_step-secret :
    (clean : List TraceStep) (s : TraceStep) (v : Option String)
    → is_secret s ≡ true
    → add_step clean (record s { value = v }) ≡ add_step clean s
unfolding add_step
add_step-secret clean s v secret = rw (is_secret-value s v) (rw secret refl)

add_steps-SameButSecrets :
    (clean ss ts : List TraceStep) → SameButSecrets ss ts → add_steps clean ts ≡ add_steps clean ss
unfolding add_steps
add_steps-SameButSecrets clean [] [] h = refl
add_steps-SameButSecrets clean (s ∷ ss) [] h = absurd h
add_steps-SameButSecrets clean [] (t ∷ ts) h = absurd h
add_steps-SameButSecrets clean (s ∷ ss) (t ∷ ts) (inl same, h) =
    rw same (add_steps-SameButSecrets (add_step clean t) ss ts h)
add_steps-SameButSecrets clean (s ∷ ss) (t ∷ ts) (inr (secret, (v, e)), h) =
    rw e
      (rw (add_step-secret clean s v secret) (add_steps-SameButSecrets (add_step clean s) ss ts h))

-- The normalised trace, and so all that is compiled from it, is the same whatever was typed into the
-- secret fields.
pub normalize-SameButSecrets :
    (t : ActionTrace) (steps : List TraceStep)
    → SameButSecrets t.steps steps
    → normalize (record t { steps = steps }) ≡ normalize t
unfolding normalize
normalize-SameButSecrets t steps h =
    ap (λ clean. record t { steps = reversed_onto [] clean })
      (add_steps-SameButSecrets [] t.steps steps h)
