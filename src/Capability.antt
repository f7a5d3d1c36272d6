-- ===== src/Capability.antt =====
-- packages/capability-sdk/src/capability-bundle.ts. Decoding the bytes of an artifact, JSON and the
-- schema together, is a parameter: a bundle, or the message that the decoding throws.
pub mod Checks
mod Tests
use smart_form.Base.{
  String, Bool, true, false, not, ◌&&◌, ◌||◌, Option, none, some, List, [], ◌∷◌, ◌++◌, ℕ, ◌==◌, any,
  includes, text_concat, if◌then◌else◌,
}
use smart_form.Base.Exec.{Exec, pure, throw, ◌>>=◌, ◌>>◌, require}
use smart_form.Contracts.Artifact.{
  Failure, error, ArtifactReference, RuntimeCompatibility, ExecutionMode, cdp, native_playwright,
}
use smart_form.Contracts.Task.{
  TaskDefinition, TaskMode, same_mode, same_type, read, write, is_write,
}
use smart_form.Contracts.Program.{
  CapabilityStep, CapabilityManifest, CapabilityArtifactBundle, RiskLevel, high, ValidationStatus,
  passed, navigate, click, fill, select, press, wait_for, extract, submit,
}
use smart_form.Lease.{Urls, lower_host}
use smart_form.Runner.{is_commit_selector}

pub data Decoded : Type 0 where
  bundle : CapabilityArtifactBundle → Decoded
  malformed : String → Decoded

-- `normalizeDomain`.
unfoldable pub normalize_domain : {S : Type 0} → Urls → String → Exec Failure S String
normalize_domain urls value =
    lower_host urls
      (urls.hostname (if includes value "://" then value else text_concat "https://" value))

unfoldable pub normalize_domains : {S : Type 0} → Urls → List String → Exec Failure S (List String)
unfolding normalize_domain
normalize_domains urls [] = pure []
normalize_domains urls (d ∷ ds) = do
  h ← normalize_domain urls d
  hs ← normalize_domains urls ds
  pure (h ∷ hs)

-- Every domain of the list, normalised, is in `known`.
unfoldable pub within_domains :
    {S : Type 0} → Urls → List String → String → List String → Exec Failure S Unit
unfolding normalize_domain
within_domains urls known reason [] = pure tt
within_domains urls known reason (d ∷ ds) = do
  h ← normalize_domain urls d
  require (any (λ k. k == h) known) (error (text_concat reason d))
  within_domains urls known reason ds

abbrev same_execution : ExecutionMode → ExecutionMode → Bool
same_execution cdp cdp = true
same_execution native_playwright native_playwright = true
same_execution _ _ = false

abbrev same_executions : List ExecutionMode → List ExecutionMode → Bool
same_executions [] [] = true
same_executions (a ∷ rest) (b ∷ bs) = same_execution a b && same_executions rest bs
same_executions _ _ = false

-- Equality of the JSON texts of two values of the schema.
unfoldable pub same_compatibility : RuntimeCompatibility → RuntimeCompatibility → Bool
same_compatibility a b =
    a.protocol_version == b.protocol_version
    && a.sdk_range == b.sdk_range
    && a.playwright_range == b.playwright_range
    && a.node_range == b.node_range
    && same_executions a.execution_modes b.execution_modes

abbrev pub is_write_step : CapabilityStep → Bool
is_write_step (fill selector v) = true
is_write_step (select selector v) = true
is_write_step (submit selector keys) = true
is_write_step _ = false

abbrev pub is_submit_step : CapabilityStep → Bool
is_submit_step (submit selector keys) = true
is_submit_step _ = false

abbrev pub is_commit_click : CapabilityStep → Bool
is_commit_click (click selector) = is_commit_selector selector
is_commit_click _ = false

abbrev pub is_high : RiskLevel → Bool
is_high high = true
is_high _ = false

abbrev has_passed : ValidationStatus → Bool
has_passed passed = true
has_passed _ = false

pub record Expected : Type 0 where
  pub artifact_id : String
  pub tenant_id : String
  pub version : String
  pub compatibility : RuntimeCompatibility

abbrev step_name : CapabilityStep → String
step_name (navigate url) = "navigate"
step_name (click selector) = "click"
step_name (fill selector v) = "fill"
step_name (select selector v) = "select"
step_name (press selector key) = "press"
step_name (wait_for selector state) = "waitFor"
step_name (extract collection n fields) = "extract"
step_name (submit selector keys) = "submit"

abbrev selector_of : CapabilityStep → String
selector_of (click selector) = selector
selector_of _ = ""

unfoldable pub read_only : {S : Type 0} → List CapabilityStep → Exec Failure S Unit
read_only [] = pure tt
read_only (step ∷ steps) = do
  require (not (is_write_step step))
      (error (text_concat "Read capability contains a write step: " (step_name step)))
  read_only steps

unfoldable pub plain_clicks : {S : Type 0} → List CapabilityStep → Exec Failure S Unit
plain_clicks [] = pure tt
plain_clicks (step ∷ steps) = do
  require (not (is_commit_click step)) (
      error
        (text_concat "Commit-like selector must use an approved submit step: " (selector_of step)))
  plain_clicks steps

-- What the steps of a program ask of its manifest.
unfoldable pub check_steps :
    {S : Type 0} → CapabilityManifest → List CapabilityStep → Exec Failure S Unit
unfolding read_only plain_clicks
check_steps m program = do
  if is_write m.mode then pure tt else read_only program
  require
      (not (
        any is_submit_step program
        && (not (is_write m.mode) || not m.requires_approval || not (is_high m.risk_level))))
      (error "Submit steps require a high-risk write capability with approval")
  plain_clicks program

unfoldable pub check_manifest :
    {S : Type 0} → Urls → CapabilityManifest → Expected → Exec Failure S Unit
check_manifest urls m expected = do
  require
      (m.capability_id == expected.artifact_id
        && m.version == expected.version
        && m.tenant_id == expected.tenant_id)
      (error "Capability manifest identity does not match the publication")
  require (has_passed m.validation.status) (error "Capability has not passed validation")
  require (m.entrypoint == "program")
      (error "Declarative capabilities must use the program entrypoint")
  sites ← normalize_domains urls m.site.domains
  within_domains urls sites "Capability permission is outside its declared sites: "
      m.permissions.domains
  require (same_compatibility m.runtime expected.compatibility)
      (error "Capability runtime does not match publication compatibility metadata")

abbrev decoded : {S : Type 0} → Decoded → Exec Failure S CapabilityArtifactBundle
decoded (bundle b) = pure b
decoded (malformed text) = throw (error text)

unfoldable pub validate_publication :
    {S : Type 0} → Urls → Decoded → Expected → Exec Failure S CapabilityArtifactBundle
validate_publication urls content expected = do
  b ← decoded content
  check_manifest urls b.manifest expected
  check_steps b.manifest b.program
  pure b

unfoldable pub within_navigation :
    {S : Type 0} → Urls → List String → List CapabilityStep → Exec Failure S Unit
unfolding normalize_domain
within_navigation urls known [] = pure tt
within_navigation urls known (navigate url ∷ steps) = do
  h ← normalize_domain urls url
  require (any (λ k. k == h) known)
      (error (text_concat "Capability navigation is outside the task scope: " url))
  within_navigation urls known steps
within_navigation urls known (step ∷ steps) = within_navigation urls known steps

abbrev compatibility_of :
    {S : Type 0} → Option RuntimeCompatibility → Exec Failure S RuntimeCompatibility
compatibility_of none = throw (error "Capability reference does not include compatibility metadata")
compatibility_of (some c) = pure c

unfoldable pub check_task :
    {S : Type 0} → Urls → CapabilityArtifactBundle → TaskDefinition → Exec Failure S Unit
check_task urls b task = do
  require (b.manifest.tenant_id == task.tenant_id)
      (error "Capability tenant does not match the task tenant")
  require (same_mode b.manifest.mode task.mode && same_type b.manifest.task_type task.task_type)
      (error "Capability mode does not match the task")
  known ← normalize_domains urls task.site.allowed_domains
  within_domains urls known "Capability requests a domain outside the task scope: "
      (b.manifest.site.domains ++ b.manifest.permissions.domains)
  within_navigation urls known b.program

unfoldable pub parse_and_validate :
    {S : Type 0}
    → Urls
    → Decoded
    → ArtifactReference
    → TaskDefinition
    → Exec Failure S CapabilityArtifactBundle
parse_and_validate urls content reference task = do
  compatibility ← compatibility_of reference.compatibility
  b ← validate_publication urls content (record {
    artifact_id = reference.artifact_id;
    tenant_id = reference.tenant_id;
    version = reference.version;
    compatibility = compatibility;
  })
  check_task urls b task
  pure b
