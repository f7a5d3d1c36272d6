-- ===== src/Server/Resources.antt =====
-- apps/server/src/resources: in-memory-resource.repository.ts, and publish, activate and rollback of
-- resource.service.ts. A `Map` is the list of its entries in the order of their insertion.
pub mod Versions
mod Tests
use smart_form.Base.{
  String, Bool, true, false, not, ◌&&◌, Option, none, some, List, [], ◌∷◌, ◌==◌, text_concat,
  if◌then◌else◌, any,
}
use smart_form.Base.Exec.{Exec, pure, throw, gets, put_state, ◌>>=◌, ◌>>◌, require}
use smart_form.Contracts.Artifact.{ManagedResourceKind, capability, prompt, skill, rule}
use smart_form.Contracts.Resource.{
  ManagedResourceVersion, ManagedResourceStatus, draft, validating, active, degraded, retired,
  rejected,
}
use smart_form.Database.Table.{select, upsert}
use smart_form.Server.Maps.{entry_key, entry_set, value_of}
use smart_form.Server.{AppError, validation_error, not_found_error, conflict_error}

-- The character that keeps the parts of a key apart.
abbrev separator : String
separator = "\0"

abbrev pub active_key : String → String → String
active_key tenant_id resource_id = text_concat tenant_id (text_concat separator resource_id)

abbrev pub version_key : String → String → String → String
version_key tenant_id resource_id version =
    text_concat tenant_id
      (text_concat separator (text_concat resource_id (text_concat separator version)))

pub record Repository : Type 0 where
  pub versions : List (String × ManagedResourceVersion)
  pub active_versions : List (String × String)

abbrev pub S : Type 0 → Type 0
S A = Exec AppError Repository A

unfoldable pub create : ManagedResourceVersion → S Unit
unfolding upsert
create r = put_state (λ s. record s {
  versions =
      upsert entry_key entry_set (version_key r.tenant_id r.resource_id r.version, r) s.versions;
})

unfoldable pub find_version : String → String → String → Repository → Option ManagedResourceVersion
unfolding select
find_version tenant_id resource_id version s =
    value_of (select entry_key (version_key tenant_id resource_id version) s.versions)

unfoldable pub get_active_version : String → String → Repository → Option String
unfolding select
get_active_version tenant_id resource_id s =
    value_of (select entry_key (active_key tenant_id resource_id) s.active_versions)

unfoldable pub set_active_version : String → String → String → S Unit
unfolding upsert
set_active_version tenant_id resource_id version = put_state (λ s. record s {
  active_versions =
      upsert entry_key entry_set (active_key tenant_id resource_id, version) s.active_versions;
})

abbrev pub same_kind : ManagedResourceKind → ManagedResourceKind → Bool
same_kind capability capability = true
same_kind prompt prompt = true
same_kind skill skill = true
same_kind rule rule = true
same_kind _ _ = false

abbrev pub is_active : ManagedResourceStatus → Bool
is_active active = true
is_active _ = false

abbrev pub can_activate : ManagedResourceStatus → Bool
can_activate active = true
can_activate validating = true
can_activate degraded = true
can_activate _ = false

abbrev pub status_name : ManagedResourceStatus → String
status_name draft = "DRAFT"
status_name validating = "VALIDATING"
status_name active = "ACTIVE"
status_name degraded = "DEGRADED"
status_name retired = "RETIRED"
status_name rejected = "REJECTED"

abbrev pub is_new : Option ManagedResourceVersion → S Unit
is_new none = pure tt
is_new (some r) = throw (conflict_error "Resource versions are immutable")

-- The part of `publish` that writes.
unfoldable pub store : ManagedResourceVersion → S Unit
unfolding create set_active_version
store r = do
  create r
  if is_active r.status then set_active_version r.tenant_id r.resource_id r.version else pure tt

unfoldable pub publish : ManagedResourceVersion → S ManagedResourceVersion
unfolding find_version store
publish r = do
  existing ← gets (find_version r.tenant_id r.resource_id r.version)
  is_new existing
  require (r.artifact.tenant_id == r.tenant_id)
      (validation_error "Artifact tenant must match resource tenant")
  require (same_kind r.artifact.kind r.kind)
      (validation_error "Artifact kind must match resource kind")
  store r
  pure r

abbrev pub found : String → String → Option ManagedResourceVersion → S ManagedResourceVersion
found resource_id version none =
    throw (not_found_error "resource version" (text_concat resource_id (text_concat "@" version)))
found resource_id version (some r) = pure r

unfoldable pub activate : String → String → String → S ManagedResourceVersion
unfolding find_version set_active_version
activate tenant_id resource_id version = do
  existing ← gets (find_version tenant_id resource_id version)
  r ← found resource_id version existing
  require (can_activate r.status) (
      validation_error
        (text_concat "Cannot activate resource in " (text_concat (status_name r.status) " state")))
  set_active_version tenant_id resource_id version
  pure r

abbrev pub rollback : String → String → String → S ManagedResourceVersion
rollback tenant_id resource_id target_version = activate tenant_id resource_id target_version
