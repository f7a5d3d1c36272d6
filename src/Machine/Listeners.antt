-- ===== src/Machine/Listeners.antt =====
-- Who hears of a change of state.
use smart_form.Base.{
  ℕ, ◌≡◌, refl, ap, if◌then◌else◌, Bool, ◌∙◌, ◌≢◌, List, [], ◌∷◌, true, false, map, arith, All,
  nat_eq_iff,
}
use smart_form.Machine.{
  TaskState, TaskContext, TaskEvent, Machine, after, send, send_all, unsubscribe, remove_listener,
  same_state, notify_listeners, Notices,
}
use smart_form.Machine.Guards.{send-after}

remove_listener-All : (l : ℕ) (ls : List ℕ) → All (λ x. x ≢ l) (remove_listener l ls)
unfolding remove_listener
remove_listener-All l [] = tt
remove_listener-All l (x ∷ ls) = ground (arith, remove_listener-All l ls, nat_eq_iff x l)

after-listeners : (m : Machine) (e : TaskEvent) → (after m e).listeners ≡ m.listeners
unfolding after
after-listeners m e = refl

send_all-listeners : (m : Machine) (es : List TaskEvent) → (send_all m es).listeners ≡ m.listeners
unfolding send_all
send_all-listeners m [] = refl
send_all-listeners m (e ∷ es) =
    ap (λ n. (send_all n es).listeners) (send-after m e)
    ∙ send_all-listeners (after m e) es
    ∙ after-listeners m e

notices-All :
    (l : ℕ) (s : TaskState) (c : TaskContext) (ls : List ℕ)
    → All (λ x. x ≢ l) ls
    → All (λ (n : ℕ × TaskState × TaskContext). n.0 ≢ l) (map (λ x. (x, s, c)) ls)
notices-All l s c [] h = tt
notices-All l s c (x ∷ ls) (h, k) = (h, notices-All l s c ls k)

send-All :
    (l : ℕ) (m : Machine) (e : TaskEvent)
    → All (λ x. x ≢ l) m.listeners
    → All (λ n. n.0 ≢ l) (send m e).2
unfolding send
send-All l m e h =
    elim (same_state (after m e).current_state m.current_state)
      as (λ b.
        All (λ (n : ℕ × TaskState × TaskContext). n.0 ≢ l)
          (if◌then◌else◌ {A = Machine × Bool × Notices} b (after m e, false, [])
            (after m e, true, notify_listeners (after m e))).2) [
              | true ↦ tt
              | false ↦
                  notices-All l (after m e).current_state (after m e).context (after m e).listeners
                    (rw (after-listeners m e) h)
            ]

-- A listener that has unsubscribed is not called for any event, however many were sent in between.
pub unsubscribed_hears_nothing :
    (l : ℕ) (m : Machine) (es : List TaskEvent) (e : TaskEvent)
    → All (λ n. n.0 ≢ l) (send (send_all (unsubscribe l m) es) e).2
unfolding unsubscribe remove_listener
unsubscribed_hears_nothing l m es e =
    send-All l (send_all (unsubscribe l m) es) e
      (rw (send_all-listeners (unsubscribe l m) es) (remove_listener-All l m.listeners))
