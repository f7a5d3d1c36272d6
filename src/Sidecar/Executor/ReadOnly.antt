-- ===== src/Sidecar/Executor/ReadOnly.antt =====
-- Which tasks reach the sidecar.
use smart_form.Base.{
  String, Bool, false, not, ◌≡◌, refl, Option, none, some, List, [], ◌∷◌, ◌==◌, All, if_has, arith,
  truthy,
}
use smart_form.Base.Exec.Preserves.{
  Preserves, Preserves-guard, Preserves-if, Preserves-bind, Preserves-gets, Preserves-put,
}
use smart_form.Sidecar.{RequestType, resume, pause}
use smart_form.Contracts.Artifact.{error}
use smart_form.Contracts.Task.{TaskDefinition, is_write}
use smart_form.Sidecar.Executor.{
  Adapter, new_adapter, take, Channel, control, begin, find_task, remove_task, aim, hand_over,
  settle, pause_task, cancel_task, Event, begins, aims, settles, pauses, cancels, client_event,
  happen, happen_all, prompt_of,
}

abbrev pub IsRead : TaskDefinition → Type 0
IsRead t = is_write t.mode ≡ false

-- What waits for the target and what the client was asked to execute are tasks that read, each with
-- the prompt that is made of it.
pub record IsReadOnly (s : Adapter) : Type 0 where
  pub aiming : All IsRead s.aiming
  pub handed : All (λ (h : TaskDefinition × String). IsRead h.0 × (h.1 ≡ prompt_of h.0)) s.handed

remove_task-All :
    (id : String) (ts : List TaskDefinition) → All IsRead ts → All IsRead (remove_task id ts)
remove_task-All id [] h = h
remove_task-All id (t ∷ ts) (first, rest) =
    if_has (All IsRead) (t.id == id) rest (first, remove_task-All id ts rest)

-- A task that was found has what all have.
abbrev Found : Option TaskDefinition → Type 0
Found none = Unit
Found (some t) = IsRead t

find_task-Found : (id : String) (ts : List TaskDefinition) → All IsRead ts → Found (find_task id ts)
find_task-Found id [] h = tt
find_task-Found id (t ∷ ts) (first, rest) =
    if_has Found (t.id == id) first (find_task-Found id ts rest)

control-IsReadOnly :
    (c : Channel) (t : RequestType) (s : Adapter) → IsReadOnly s → IsReadOnly (control c t s)
control-IsReadOnly c t s v = record { aiming = v.aiming; handed = v.handed }

take-IsReadOnly :
    (t : TaskDefinition) → IsRead t → (s : Adapter) → IsReadOnly s → IsReadOnly (take t s)
take-IsReadOnly t h s v = record { aiming = (h, v.aiming); handed = v.handed }

begin-IsReadOnly :
    (c : Channel) (is_resume : Bool) (t : TaskDefinition)
    → Preserves IsReadOnly (begin c is_resume t)
unfolding begin
begin-IsReadOnly c is_resume t =
    Preserves-guard (not (is_write t.mode))
      (error "Browser Use Sidecar is restricted to read tasks") _
      λ reads.
        Preserves-if is_resume _ _
          (Preserves-bind _ _ (Preserves-gets _) λ paused.
            Preserves-guard paused (error "Sidecar has no paused task to resume") _
              λ _. Preserves-put _ (control-IsReadOnly c resume))
          (Preserves-bind _ _ (Preserves-gets _) λ free.
            Preserves-guard free (error "Sidecar executor already has an active task") _
              λ _. Preserves-put _ (take-IsReadOnly t (ground arith)))

pause-IsReadOnly : (c : Channel) → Preserves IsReadOnly (pause_task c)
unfolding pause_task
pause-IsReadOnly c = Preserves-bind _ _ (Preserves-gets _) λ active.
    Preserves-guard active (error "Sidecar has no active task") _
      λ _. Preserves-put _ (control-IsReadOnly c pause)

aim-IsReadOnly :
    (c : Channel) (found : Bool) (id : String) (t : Option TaskDefinition) (s : Adapter)
    → Found t
    → IsReadOnly s
    → IsReadOnly (aim c found id t s)
aim-IsReadOnly c found id none s h v = v
aim-IsReadOnly c found id (some t) s h v =
    let left = remove_task-All id s.aiming v.aiming in
    if_has IsReadOnly found (record { aiming = left; handed = ((h, refl), v.handed) })
      (record { aiming = left; handed = v.handed })

happen-IsReadOnly : (e : Event) (s : Adapter) → IsReadOnly s → IsReadOnly (happen e s)
unfolding happen hand_over settle pause_task cancel_task
happen-IsReadOnly (begins c b t) s v = (begin-IsReadOnly c b t).at s v
happen-IsReadOnly (aims c found id) s v =
    aim-IsReadOnly c found id (find_task id s.aiming) s (find_task-Found id s.aiming v.aiming) v
happen-IsReadOnly settles s v = record { aiming = v.aiming; handed = v.handed }
happen-IsReadOnly (pauses c) s v = (pause-IsReadOnly c).at s v
happen-IsReadOnly (cancels c) s v =
    if_has IsReadOnly (not (truthy s.task_id)) v (record { aiming = v.aiming; handed = v.handed })
happen-IsReadOnly (client_event e) s v = record { aiming = v.aiming; handed = v.handed }

happen_all-IsReadOnly :
    (es : List Event) (s : Adapter) → IsReadOnly s → IsReadOnly (happen_all es s)
unfolding happen_all
happen_all-IsReadOnly [] s v = v
happen_all-IsReadOnly (e ∷ es) s v = happen_all-IsReadOnly es (happen e s) (happen-IsReadOnly e s v)

-- Whatever is asked of a new adapter and happens to its client, the client is asked to execute only
-- tasks that read, each with the prompt that is made of it.
pub adapter-IsReadOnly : (es : List Event) → IsReadOnly (happen_all es new_adapter)
adapter-IsReadOnly es = happen_all-IsReadOnly es new_adapter (record { aiming = tt; handed = tt })
