-- ===== src/Explore/Normalized.antt =====
-- What a normalised trace is like: no secret in it, no field filled twice in a row, nothing left to
-- normalise.
use smart_form.Base.{
  append-nil, String, ◌≡◌, refl, ap, ◌∙◌, true, false, Option, List, [], ◌∷◌, ◌++◌, arith, All,
  Bool-cases, inl, inr,
}
use smart_form.Explore.{
  TraceStep, ActionTrace, is_secret, is_fill, redacted, continues, push_step, add_step, add_steps,
  reversed_onto, normalize,
}

-- The step is not of a secret field, or it is a request for the human without the value.
abbrev pub IsRedacted : TraceStep → Type 0
IsRedacted s = is_secret s ≡ true → redacted s ≡ s

-- No step fills the field that the step before it fills.
abbrev pub NoRepeats : List TraceStep → Type 0
NoRepeats [] = Unit {0}
NoRepeats (s ∷ []) = Unit {0}
NoRepeats (s ∷ t ∷ rest) = (continues s t ≡ false) × NoRepeats (t ∷ rest)

-- The same of the steps in reverse, and of the first of them.
abbrev Apart : TraceStep → List TraceStep → Type 0
Apart s [] = Unit {0}
Apart s (t ∷ rest) = continues t s ≡ false

abbrev IsClean : List TraceStep → Type 0
IsClean [] = Unit {0}
IsClean (s ∷ rest) = IsRedacted s × Apart s rest × IsClean rest

is_secret-value :
    (s : TraceStep) (v : Option String) → is_secret (record s { value = v }) ≡ is_secret s
unfolding is_secret
is_secret-value s v = refl

is_secret-redacted : (s : TraceStep) → is_secret (redacted s) ≡ is_secret s
unfolding is_secret
is_secret-redacted s = refl

Apart-redacted : (s : TraceStep) (clean : List TraceStep) → Apart (redacted s) clean
Apart-redacted s [] = tt
Apart-redacted s (t ∷ clean) = ground arith

Apart-value :
    (s : TraceStep) (v : Option String) (clean : List TraceStep)
    → Apart s clean
    → Apart (record s { value = v }) clean
Apart-value s v [] h = tt
Apart-value s v (t ∷ clean) h = h

-- A step that is redacted and fills a field is not secret.
plain_of_fill : (s : TraceStep) → IsRedacted s → is_fill s.action_type ≡ true → is_secret s ≡ false
plain_of_fill s h fills = elim (Bool-cases (is_secret s)) [
  | inl secret ↦ absurd (ground (arith, ap (λ t. t.action_type) (h secret), fills))
  | inr plain ↦ plain
]

push_step-IsClean :
    (clean : List TraceStep) (s : TraceStep)
    → is_secret s ≡ false
    → IsClean clean
    → IsClean (push_step clean s)
unfolding push_step
push_step-IsClean [] s plain v = (λ secret. cc, tt, tt)
push_step-IsClean (last ∷ clean) s plain (red, apart, v) = elim (Bool-cases (continues last s)) [
  | inl same ↦ rw same (
    λ secret. absurd (
        ground (
          arith,
          secret,
          is_secret-value last s.value,
          plain_of_fill last red (ground (arith, same)),
        )),
    Apart-value last s.value clean apart,
    v,
  )
  | inr other ↦ rw other ((λ secret. cc), other, (red, apart, v))
]

add_step-IsClean :
    (clean : List TraceStep) (s : TraceStep) → IsClean clean → IsClean (add_step clean s)
unfolding add_step
add_step-IsClean clean s v = elim (Bool-cases (is_secret s)) [
  | inl secret ↦ rw secret ((λ again. refl), Apart-redacted s clean, v)
  | inr plain ↦ rw plain (push_step-IsClean clean s plain v)
]

add_steps-IsClean : (clean steps : List TraceStep) → IsClean clean → IsClean (add_steps clean steps)
unfolding add_steps
add_steps-IsClean clean [] v = v
add_steps-IsClean clean (s ∷ steps) v =
    add_steps-IsClean (add_step clean s) steps (add_step-IsClean clean s v)

-- The first step of `clean`, which comes before the first of `steps`, does not run into it.
abbrev Joins : List TraceStep → List TraceStep → Type 0
Joins [] steps = Unit {0}
Joins (last ∷ clean) [] = Unit {0}
Joins (last ∷ clean) (s ∷ steps) = continues last s ≡ false

NoRepeats-cons :
    (s : TraceStep) (clean acc : List TraceStep)
    → Joins (s ∷ clean) acc
    → NoRepeats acc
    → NoRepeats (s ∷ acc)
NoRepeats-cons s clean [] joins w = tt
NoRepeats-cons s clean (t ∷ acc) joins w = (joins, w)

reversed_onto-NoRepeats :
    (acc clean : List TraceStep)
    → IsClean clean
    → Joins clean acc
    → All IsRedacted acc × NoRepeats acc
    → All IsRedacted (reversed_onto acc clean) × NoRepeats (reversed_onto acc clean)
unfolding reversed_onto
reversed_onto-NoRepeats acc [] v joins w = w
reversed_onto-NoRepeats acc (s ∷ []) (red, apart, v) joins (reds, w) =
    ((red, reds), NoRepeats-cons s [] acc joins w)
reversed_onto-NoRepeats acc (s ∷ t ∷ clean) (red, apart, v) joins (reds, w) =
    reversed_onto-NoRepeats (s ∷ acc) (t ∷ clean) v apart
      ((red, reds), NoRepeats-cons s (t ∷ clean) acc joins w)

Joins-nil : (clean : List TraceStep) → Joins clean []
Joins-nil [] = tt
Joins-nil (s ∷ clean) = tt

pub normalize_lem :
    (t : ActionTrace) → All IsRedacted (normalize t).steps × NoRepeats (normalize t).steps
unfolding normalize
normalize_lem t =
    reversed_onto-NoRepeats [] (add_steps [] t.steps) (add_steps-IsClean [] t.steps tt)
      (Joins-nil (add_steps [] t.steps)) (tt, tt)

push_apart :
    (clean : List TraceStep) (s : TraceStep) (steps : List TraceStep)
    → Joins clean (s ∷ steps)
    → push_step clean s ≡ s ∷ clean
unfolding push_step
push_apart [] s steps joins = refl
push_apart (last ∷ clean) s steps joins = rw joins refl

add_apart :
    (clean : List TraceStep) (s : TraceStep) (steps : List TraceStep)
    → IsRedacted s
    → Joins clean (s ∷ steps)
    → add_step clean s ≡ s ∷ clean
unfolding add_step
add_apart clean s steps red joins = elim (Bool-cases (is_secret s)) [
  | inl secret ↦ rw secret (ap (λ x. x ∷ clean) (red secret))
  | inr plain ↦ rw plain (push_apart clean s steps joins)
]

Joins-NoRepeats :
    (s : TraceStep) (clean steps : List TraceStep) → NoRepeats (s ∷ steps) → Joins (s ∷ clean) steps
Joins-NoRepeats s clean [] w = tt
Joins-NoRepeats s clean (t ∷ steps) w = w.0

NoRepeats-tail : (s : TraceStep) (steps : List TraceStep) → NoRepeats (s ∷ steps) → NoRepeats steps
NoRepeats-tail s [] w = tt
NoRepeats-tail s (t ∷ steps) w = w.1

-- Nothing is merged or redacted in steps that are normal already.
add_steps-normal :
    (clean steps : List TraceStep)
    → All IsRedacted steps
    → NoRepeats steps
    → Joins clean steps
    → add_steps clean steps ≡ reversed_onto clean steps
unfolding add_steps reversed_onto
add_steps-normal clean [] reds w joins = refl
add_steps-normal clean (s ∷ steps) (red, reds) w joins = rw (add_apart clean s steps red joins) (
    add_steps-normal (s ∷ clean) steps reds (NoRepeats-tail s steps w)
      (Joins-NoRepeats s clean steps w))

reversed_onto-reversed_onto :
    (acc other steps : List TraceStep)
    → reversed_onto acc (reversed_onto other steps) ≡ reversed_onto (steps ++ acc) other
unfolding reversed_onto
reversed_onto-reversed_onto acc other [] = refl
reversed_onto-reversed_onto acc other (s ∷ steps) =
    reversed_onto-reversed_onto acc (s ∷ other) steps

reversed_twice : (steps : List TraceStep) → reversed_onto [] (reversed_onto [] steps) ≡ steps
unfolding reversed_onto
reversed_twice steps = reversed_onto-reversed_onto [] [] steps ∙ append-nil steps

-- A normalised trace is left as it is.
pub normalize_idem : (t : ActionTrace) → normalize (normalize t) ≡ normalize t
unfolding normalize
normalize_idem t =
    let (reds, w) = normalize_lem t in
    ap (λ steps. record t { steps = steps })
      (ap (reversed_onto []) (add_steps-normal [] (normalize t).steps reds w tt)
        ∙ reversed_twice (normalize t).steps)
