-- ===== src/Sidecar/Over.antt =====
-- The promises that were asked for, and the end of the client.
use smart_form.Base.{String, Bool, true, ◌≡◌, List, [], ◌∷◌, ◌==◌, any, All}
use smart_form.Sidecar.{Client, Outcome}
use smart_form.Sidecar.Process.{Event, executes, controls}

-- The promises that the events ask for: the tasks of `execute` and the requests of `control`.
abbrev pub begun : List Event → List String
begun [] = []
begun (executes sendable id task ∷ es) = task ∷ begun es
begun (e ∷ es) = begun es

abbrev pub asked : List Event → List String
asked [] = []
asked (controls sendable t id ∷ es) = id ∷ asked es
asked (e ∷ es) = asked es

-- The promise for the name was settled.
abbrev pub is_settled : String → List (String × Outcome) → Bool
is_settled id settled = any (λ (r : String × Outcome). r.0 == id) settled

-- Every promise that the events asked for was settled.
abbrev pub AllSettled : List Event → Client → Type 0
AllSettled es s =
    All (λ t. is_settled t s.tasks ≡ true) (begun es)
    × All (λ id. is_settled id s.requests ≡ true) (asked es)
