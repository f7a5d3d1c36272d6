-- ===== src/Artifacts/Loader.antt =====
-- apps/desktop/src/agent/artifact-loader.ts: where an artifact comes from. The network and the disk
-- are a record of functions that may throw.
use smart_form.Base.{
  ℕ, ◌*◌, String, Bool, true, false, not, ◌||◌, Option, none, some, List, [], ◌∷◌, ◌==◌, any, ltb,
  truthy, codes, is_prefix, text_concat,
}
use smart_form.Base.Exec.{Exec, pure, throw, ◌>>=◌, ◌>>◌, require}
use smart_form.Contracts.Json.{Json, Payload}
use smart_form.Contracts.Artifact.{
  ArtifactReference, ArtifactTransport, https, local, ExecutionEnvironment, Failure, error,
  artifact_rejected, artifact_not_found, artifact_size_mismatch, permission_denied,
}
use smart_form.Artifacts.{Tools, Verification, accepted, refused, verify_artifact, template}

pub record Url : Type 0 where
  pub protocol : String
  pub hostname : String
  pub host_origin : String
  pub pathname : String
  pub search : String
  pub fragment : String

pub record Response (W : Type 0) : Type 0 where
  pub successful : Bool
  pub status : String
  pub content_length : Option String
  pub body : Exec Failure W (List ℕ)
  pub json : Exec Failure W Payload

-- `number_of` is `none` for what is not a number; `read_file` is `none` for a file that is missing.
pub record Outside (W Key : Type 0) : Type 0 where
  pub parse_url : String → Option Url
  pub fetch : Url → String → Exec Failure W (Response W)
  pub number_of : String → Option ℕ
  pub resolve : List String → String
  pub separator : String
  pub read_file : String → Exec Failure W (Option (List ℕ))
  pub json_entries : String → Option (List (String × Json))
  pub pem_key : String → Option Key
  pub der_key : String → Option Key

pub record ArtifactLoaderConfig (Key : Type 0) : Type 0 where
  pub environment : ExecutionEnvironment
  pub trusted_signing_keys : String → Option Key
  pub access_token : String
  pub local_artifact_root : Option String
  pub allowed_https_origins : Option (List String)
  pub max_artifact_bytes : Option ℕ

abbrev pub required : {W A : Type 0} → Option A → String → Exec Failure W A
required none refusal = throw (error refusal)
required (some a) refusal = pure a

abbrev or_default : {A : Type 0} → Option A → A → A
or_default none d = d
or_default (some a) d = a

abbrev pub starts_with : String → String → Bool
starts_with text start = is_prefix (codes start) (codes text)

abbrev is_empty : List String → Bool
is_empty [] = true
is_empty (x ∷ xs) = false

-- An empty list of origins allows all.
abbrev pub allowed_origin : List String → String → Bool
allowed_origin origins origin = is_empty origins || any (λ o. o == origin) origins

module _ {W Key : Type 0} (tools : Tools Key) (out : Outside W Key) where
  module _ (c : ArtifactLoaderConfig Key) where
    abbrev pub max_bytes : ℕ
    max_bytes = or_default c.max_artifact_bytes (20 * 1024 * 1024)

    abbrev pub origins : List String
    origins = or_default c.allowed_https_origins []

    -- `Number(header ?? 0)`; what is no number is not above the limit.
    abbrev declared_too_long : Option String → Bool
    declared_too_long none = false
    declared_too_long (some header) = elim (out.number_of header) [
      | none ↦ false
      | some n ↦ ltb max_bytes n
    ]

    unfoldable pub download_https : String → Exec Failure W (List ℕ)
    download_https artifact_url = do
      url ← required (out.parse_url artifact_url) "Invalid URL"
      require (allowed_origin origins url.host_origin) (
          artifact_rejected permission_denied
            (text_concat "Artifact origin is not allowlisted: " url.host_origin))
      response ← out.fetch url c.access_token
      require response.successful (
          artifact_rejected artifact_not_found
            (text_concat "Artifact download failed with HTTP " response.status))
      require (not (declared_too_long response.content_length))
          (artifact_rejected artifact_size_mismatch "Artifact response is too large")
      response.body

    abbrev pub disabled : Failure
    disabled = artifact_rejected permission_denied "Local artifact transport is disabled"

    abbrev pub enabled_root : Option String → Exec Failure W String
    enabled_root none = throw disabled
    enabled_root (some root) = do require (truthy (some root)) disabled; pure root

    abbrev found_file : Option (List ℕ) → Exec Failure W (List ℕ)
    found_file none = throw (artifact_rejected artifact_not_found "Local artifact was not found")
    found_file (some content) = pure content

    abbrev pub path_of : String → String → String → String
    path_of root tenant_id path =
        out.resolve (out.resolve (root ∷ []) ∷ tenant_id ∷ path ∷ "artifact.bin" ∷ [])

    abbrev pub is_below : String → String → Bool
    is_below root path = starts_with path (text_concat (out.resolve (root ∷ [])) out.separator)

    unfoldable pub read_local : ArtifactReference → String → Exec Failure W (List ℕ)
    read_local r path = do
      root ← enabled_root c.local_artifact_root
      require (is_below root (path_of root r.tenant_id path))
          (artifact_rejected permission_denied "Artifact path escaped its root")
      file ← out.read_file (path_of root r.tenant_id path)
      found_file file

    abbrev pub take_content : ArtifactReference → ArtifactTransport → Exec Failure W (List ℕ)
    take_content r (https url) = download_https url
    take_content r (local path) = read_local r path

    abbrev pub demand : Verification → Exec Failure W Unit
    demand accepted = pure tt
    demand (refused code detail) = throw (artifact_rejected code detail)

    unfoldable pub load : ArtifactReference → Exec Failure W (List ℕ)
    load r = do
      require (not (ltb max_bytes r.content_length)) (
          artifact_rejected artifact_size_mismatch (
            template
              ("Artifact exceeds the " ∷ tools.number_text max_bytes ∷ " byte device limit" ∷ [])))
      content ← take_content r r.transport
      demand (verify_artifact tools r content c.environment none c.trusted_signing_keys)
      pure content
