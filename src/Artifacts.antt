-- ===== src/Artifacts.antt =====
-- packages/capability-sdk/src/artifact-security.ts: what is signed of an artifact, and the checks of
-- one before it runs. A reference is one that its schema accepted.
pub mod Verified
pub mod Payload
pub mod Loader
pub mod Trust
pub mod Loaded
mod Tests
use smart_form.Base.{
  ℕ, String, Bool, true, false, ◌&&◌, Option, none, some, List, [], ◌∷◌, ◌==◌, nat_eq, any, length,
  text_concat, if◌then◌else◌,
}
use smart_form.Contracts.Artifact.{
  ManagedResourceKind, ExecutionMode, Browser, chromium, RuntimeCompatibility, ArtifactReference,
  ArtifactTransport, ExecutionEnvironment, ArtifactRejectionCode, artifact_size_mismatch,
  artifact_hash_mismatch, artifact_signature_invalid, artifact_signing_key_unknown,
  artifact_manifest_invalid, tenant_mismatch, protocol_incompatible, sdk_incompatible,
  playwright_incompatible, node_incompatible, browser_incompatible, execution_mode_incompatible,
  cdp, native_playwright, capability, prompt, skill, rule,
}

-- The cryptography, the version ranges and the printing that the file takes from its libraries.
pub record Tools (Key : Type 0) : Type 0 where
  pub sha256 : List ℕ → String
  pub sign : List ℕ → Key → List ℕ
  pub verify : List ℕ → Key → List ℕ → Bool
  pub to_base64 : List ℕ → String
  pub from_base64 : String → List ℕ
  pub utf8 : String → List ℕ
  pub lower : String → String
  pub number_text : ℕ → String
  pub compatibility_json : RuntimeCompatibility → String
  pub valid : String → Bool
  pub valid_range : String → Bool
  pub in_range : String → String → Bool

pub data Verification : Type 0 where
  accepted : Verification
  refused : ArtifactRejectionCode → String → Verification

abbrev pub kind_name : ManagedResourceKind → String
kind_name capability = "capability"
kind_name prompt = "prompt"
kind_name skill = "skill"
kind_name rule = "rule"

abbrev mode_name : ExecutionMode → String
mode_name cdp = "cdp"
mode_name native_playwright = "native-playwright"

abbrev same_browser : Browser → Browser → Bool
same_browser chromium chromium = true

abbrev same_mode : ExecutionMode → ExecutionMode → Bool
same_mode cdp cdp = true
same_mode native_playwright native_playwright = true
same_mode _ _ = false

-- `lines.join('\n')`.
unfoldable pub join_lines : List String → String
join_lines [] = ""
join_lines (line ∷ []) = line
join_lines (line ∷ next ∷ lines) = text_concat line (text_concat "\n" (join_lines (next ∷ lines)))

-- A template with its values in place.
abbrev pub template : List String → String
template [] = ""
template (part ∷ parts) = text_concat part (template parts)

module _ {Key : Type 0} (tools : Tools Key) where
  abbrev compatibility_text : Option RuntimeCompatibility → String
  compatibility_text none = ""
  compatibility_text (some c) = tools.compatibility_json c

  abbrev pub payload_lines : ArtifactReference → List String
  payload_lines r =
      r.artifact_id
      ∷ r.tenant_id
      ∷ kind_name r.kind
      ∷ r.version
      ∷ tools.lower r.sha256
      ∷ tools.number_text r.content_length
      ∷ r.signing_key_id
      ∷ r.published_at
      ∷ compatibility_text r.compatibility
      ∷ []

  -- `createArtifactSignaturePayload`, before its encoding. The signature and the transport are not
  -- part of it.
  unfoldable pub signature_payload : ArtifactReference → String
  unfolding join_lines
  signature_payload r = join_lines (payload_lines r)

  -- `signArtifactReference`: the signature that comes in is not read.
  unfoldable pub sign_artifact_reference : ArtifactReference → Key → ArtifactReference
  sign_artifact_reference r key = record r {
    signature = tools.to_base64 (tools.sign (tools.utf8 (signature_payload r)) key);
  }

  abbrev satisfies : String → String → Bool
  satisfies version range =
      tools.valid version && tools.valid_range range && tools.in_range version range

  unfoldable pub verify_runtime_compatibility :
      RuntimeCompatibility → ExecutionEnvironment → Verification
  verify_runtime_compatibility c e =
      if c.protocol_version == e.protocol_version
      then if satisfies e.sdk_version c.sdk_range
        then if satisfies e.playwright_version c.playwright_range
          then if satisfies e.node_version c.node_range
            then if same_browser c.browser e.browser
              then if any (same_mode e.execution_mode) c.execution_modes
                then accepted
                else refused execution_mode_incompatible (
                    template
                      ("Execution mode " ∷ mode_name e.execution_mode ∷ " is not supported" ∷ []))
              else refused browser_incompatible "Browser chromium is not supported"
            else refused node_incompatible
                (template ("Node " ∷ e.node_version ∷ " does not satisfy " ∷ c.node_range ∷ []))
          else refused playwright_incompatible (
              template (
                "Playwright " ∷ e.playwright_version ∷ " does not satisfy " ∷ c.playwright_range
                ∷ []))
        else refused sdk_incompatible
            (template ("SDK " ∷ e.sdk_version ∷ " does not satisfy " ∷ c.sdk_range ∷ []))
      else refused protocol_incompatible (
          template
            ("Protocol " ∷ e.protocol_version ∷ " does not match " ∷ c.protocol_version ∷ []))

  -- From the compatibility that counts on.
  unfoldable pub verify_compatibility :
      Option RuntimeCompatibility → ExecutionEnvironment → Verification
  unfolding verify_runtime_compatibility
  verify_compatibility none e =
      refused artifact_manifest_invalid "Artifact does not declare runtime compatibility"
  verify_compatibility (some c) e = verify_runtime_compatibility c e

  abbrev or_else :
      Option RuntimeCompatibility → Option RuntimeCompatibility → Option RuntimeCompatibility
  or_else none b = b
  or_else (some a) b = some a

  -- From the key that the trusted ones have for the reference on.
  unfoldable pub verify_with_key :
      ArtifactReference
      → ExecutionEnvironment
      → Option RuntimeCompatibility
      → Option Key
      → Verification
  verify_with_key r e given none =
      refused artifact_signing_key_unknown
        (template ("Unknown signing key " ∷ r.signing_key_id ∷ []))
  verify_with_key r e given (some key) =
      if tools.verify (tools.utf8 (signature_payload r)) key (tools.from_base64 r.signature)
      then verify_compatibility (or_else given r.compatibility) e
      else refused artifact_signature_invalid "Artifact signature verification failed"

  unfoldable pub verify_artifact :
      ArtifactReference
      → List ℕ
      → ExecutionEnvironment
      → Option RuntimeCompatibility
      → (String → Option Key)
      → Verification
  verify_artifact r content e given trusted =
      if r.tenant_id == e.tenant_id
      then if nat_eq r.content_length (length content)
        then if tools.sha256 content == tools.lower r.sha256
          then verify_with_key r e given (trusted r.signing_key_id)
          else refused artifact_hash_mismatch
              (template ("Expected " ∷ r.sha256 ∷ " but received " ∷ tools.sha256 content ∷ []))
        else refused artifact_size_mismatch (
            template (
              "Expected "
              ∷ tools.number_text r.content_length
              ∷ " bytes but received "
              ∷ tools.number_text (length content)
              ∷ []))
      else refused tenant_mismatch (
          template (
            "Artifact tenant " ∷ r.tenant_id ∷ " does not match device tenant " ∷ e.tenant_id ∷ []))
