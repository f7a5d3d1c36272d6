-- ===== src/Server/Tasks/Keys.antt =====
-- The repository of tasks: what is saved is found, and which tenants share a key.
use smart_form.Base.{String, ◌≡◌, refl, ap, ◌∙◌, some, ◌==◌, eq_refl, text_concat, if◌then◌else◌}
use text.Mathlib.TextLemmas.{append_assoc}
use smart_form.Server.Maps.{set_get}
use smart_form.Server.Tasks.{TaskRouteRecord, Plane, task_key, save, find}

-- Saving a task changes what is found under its own key alone.
pub find-save :
    (r : TaskRouteRecord) (t i : String) (s : Plane)
    → find t i (save r s)
      ≡ (if task_key r.tenant_id r.task.id == task_key t i then some r else find t i s)
unfolding find save
find-save r t i s = set_get (task_key r.tenant_id r.task.id) (task_key t i) r s.tasks

-- The keys of two tenants meet when the name of one goes on with a colon.
task_key-colon :
    (t u v : String)
    → task_key (text_concat t (text_concat ":" u)) v
      ≡ task_key t (text_concat u (text_concat ":" v))
task_key-colon t u v =
    append_assoc t (text_concat ":" u) (text_concat ":" v)
    ∙ ap (text_concat t) (append_assoc ":" u (text_concat ":" v))

-- A task of a tenant whose name is another tenant's, a colon and more is found by that other tenant,
-- under the rest of the name, a colon and the task's id.
pub find_across_tenants :
    (t u : String) (r : TaskRouteRecord) (s : Plane)
    → r.tenant_id ≡ text_concat t (text_concat ":" u)
    → find t (text_concat u (text_concat ":" r.task.id)) (save r s) ≡ some r
find_across_tenants t u r s named =
    let same : task_key r.tenant_id r.task.id
        ≡ task_key t (text_concat u (text_concat ":" r.task.id)) =
      ap (λ x. task_key x r.task.id) named ∙ task_key-colon t u r.task.id in
    rw (find-save r t (text_concat u (text_concat ":" r.task.id)) s)
      (rw same (rw (eq_refl (task_key t (text_concat u (text_concat ":" r.task.id)))) refl))
