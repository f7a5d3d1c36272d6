-- ===== src/Contracts/Resource.antt =====
-- packages/contracts/src/resource.ts.
use smart_form.Base.{String, List, ℕ}
use smart_form.Contracts.Json.{Payload}
use smart_form.Contracts.Task.{TaskMode}
use smart_form.Contracts.Artifact.{ManagedResourceKind, ArtifactReference}

pub data ManagedResourceStatus : Type 0 where
  draft validating active degraded retired rejected : ManagedResourceStatus

pub record ResourceMatchCriteria : Type 0 where
  pub intents : List String
  pub domains : List String
  pub tags : List String
  pub modes : List TaskMode
  pub priority : ℕ

pub record ManagedResourceVersion : Type 0 where
  pub resource_id : String
  pub tenant_id : String
  pub kind : ManagedResourceKind
  pub name : String
  pub version : String
  pub status : ManagedResourceStatus
  pub criteria : ResourceMatchCriteria
  pub artifact : ArtifactReference
  pub metadata : Payload
  pub created_at : String
  pub created_by : String
