-- ===== src/Contracts/Program.antt =====
-- packages/contracts/src/capability.ts and capability-program.ts: a capability, and the declarative
-- program that it carries.
use smart_form.Base.{ℕ, String, Bool, Option, List}
use smart_form.Contracts.Task.{TaskMode, TaskType, Scalar}
use smart_form.Contracts.Artifact.{RuntimeCompatibility}

-- A literal is never `null`.
pub data CapabilityValue : Type 0 where
  literal : Scalar → CapabilityValue
  input : String → CapabilityValue

pub data FieldRead : Type 0 where
  text value attribute : FieldRead

pub record ExtractField : Type 0 where
  pub name : String
  pub selector : String
  pub read : FieldRead
  pub attribute_name : Option String

pub data WaitState : Type 0 where
  attached detached visible hidden : WaitState

pub data CapabilityStep : Type 0 where
  navigate : String → CapabilityStep
  click : String → CapabilityStep
  fill : String → CapabilityValue → CapabilityStep
  select : String → CapabilityValue → CapabilityStep
  press : String → String → CapabilityStep
  wait_for : String → WaitState → CapabilityStep
  -- The collection's selector, the greatest number of records, the fields.
  extract : Option String → ℕ → List ExtractField → CapabilityStep
  -- The selector and the keys of the snapshot.
  submit : String → List String → CapabilityStep

pub data RiskLevel : Type 0 where
  low medium high : RiskLevel

pub data RuntimeLanguage : Type 0 where
  typescript declarative_v1 : RuntimeLanguage

pub data ValidationStatus : Type 0 where
  pending passed failed : ValidationStatus

pub record ManifestSite : Type 0 where
  pub domains : List String
  pub entry_url_patterns : List String
  pub module_name : String

pub record ManifestPermissions : Type 0 where
  pub domains : List String
  pub downloads : Bool
  pub uploads : Bool
  pub filesystem : List String
  pub requires_human_login : Bool

pub record ManifestValidation : Type 0 where
  pub status : ValidationStatus
  pub validated_at : Option String
  pub consecutive_passes : ℕ
  -- Not an integer: the text that it prints as.
  pub success_rate_30d : Option String

pub record CapabilityManifest : Type 0 where
  pub schema_version : String
  pub capability_id : String
  pub version : String
  pub tenant_id : String
  pub name : String
  pub task_type : TaskType
  pub mode : TaskMode
  pub site : ManifestSite
  pub runtime : RuntimeCompatibility
  pub language : RuntimeLanguage
  pub permissions : ManifestPermissions
  pub validation : ManifestValidation
  pub fingerprints : List String
  pub entrypoint : String
  pub risk_level : RiskLevel
  pub requires_approval : Bool
  pub reversible : Bool

pub record CapabilityArtifactBundle : Type 0 where
  pub manifest : CapabilityManifest
  pub program : List CapabilityStep
