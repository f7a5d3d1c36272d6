-- ===== src/Contracts/Artifact.antt =====
-- packages/contracts/src/artifact.ts, and the errors of the desktop agent.
use smart_form.Base.{String, Option, List, ℕ}

pub data ManagedResourceKind : Type 0 where
  capability prompt skill rule : ManagedResourceKind

pub ManagedResourceKind-discrete : Discrete ManagedResourceKind
ManagedResourceKind-discrete = hlevel

pub data ArtifactTransport : Type 0 where
  https local : String → ArtifactTransport

pub data ExecutionMode : Type 0 where
  cdp native_playwright : ExecutionMode

pub ExecutionMode-discrete : Discrete ExecutionMode
ExecutionMode-discrete = hlevel

-- The only value of `browser` is the literal `chromium`.
pub data Browser : Type 0 where
  chromium : Browser

pub record RuntimeCompatibility : Type 0 where
  pub protocol_version : String
  pub sdk_range : String
  pub playwright_range : String
  pub node_range : String
  pub browser : Browser
  pub execution_modes : List ExecutionMode

pub record ArtifactReference : Type 0 where
  pub artifact_id : String
  pub tenant_id : String
  pub kind : ManagedResourceKind
  pub version : String
  pub sha256 : String
  pub signature : String
  pub signing_key_id : String
  pub content_length : ℕ
  pub transport : ArtifactTransport
  pub compatibility : Option RuntimeCompatibility
  pub published_at : String

pub record ExecutionEnvironment : Type 0 where
  pub tenant_id : String
  pub device_id : String
  pub protocol_version : String
  pub sdk_version : String
  pub playwright_version : String
  pub node_version : String
  pub browser : Browser
  pub execution_mode : ExecutionMode

pub data ArtifactRejectionCode : Type 0 where
  artifact_not_found artifact_size_mismatch artifact_hash_mismatch : ArtifactRejectionCode
  artifact_signature_invalid artifact_signing_key_unknown : ArtifactRejectionCode
  artifact_manifest_invalid tenant_mismatch protocol_incompatible : ArtifactRejectionCode
  sdk_incompatible playwright_incompatible node_incompatible : ArtifactRejectionCode
  browser_incompatible execution_mode_incompatible permission_denied : ArtifactRejectionCode

-- What a method throws: an `Error` with its message, or an `ArtifactRejectedError`.
pub data Failure : Type 0 where
  error : String → Failure
  artifact_rejected : ArtifactRejectionCode → String → Failure

abbrev pub message : Failure → String
message (error text) = text
message (artifact_rejected code text) = text
