-- ===== src/Artifacts/Loaded.antt =====
-- What is known of an artifact that was loaded, and of the keys.
use smart_form.Base.{ℕ, ◌≤◌, String, true, false, ◌≡◌, ◌⊎◌, none, some, List, ◌==◌}
use smart_form.Contracts.Artifact.{ArtifactReference, ArtifactTransport, https, local}
use smart_form.Artifacts.{Tools}
use smart_form.Artifacts.Verified.{IsVerified}
use smart_form.Artifacts.Loader.{
  Url, Outside, ArtifactLoaderConfig, allowed_origin, max_bytes, origins, path_of, is_below,
}
use smart_form.Artifacts.Trust.{ArtifactTrustOptions, is_loopback}

module _ {W Key : Type 0} (tools : Tools Key) (out : Outside W Key)
    (c : ArtifactLoaderConfig Key) where
  -- A download from an allowed origin, or a file below the root.
  abbrev pub IsAllowed : ArtifactReference → ArtifactTransport → Type 0
  IsAllowed r (https address) =
      (url : Url) × (out.parse_url address ≡ some url)
      × (allowed_origin (origins tools out c) url.host_origin ≡ true)
  IsAllowed r (local path) =
      (root : String) × (c.local_artifact_root ≡ some root)
      × (is_below tools out c root (path_of tools out c root r.tenant_id path) ≡ true)

  pub record IsLoaded (r : ArtifactReference) (content : List ℕ) : Type 0 where
    pub small : r.content_length ≤ max_bytes tools out c
    pub source : IsAllowed r r.transport
    pub verified : IsVerified tools r content c.environment none c.trusted_signing_keys

module _ {W Key : Type 0} (out : Outside W Key) (o : ArtifactTrustOptions) where
  -- The keys were configured, or outside production found on this machine.
  abbrev pub IsTrusted : Type 0
  IsTrusted =
      ((json : String) × (o.configured_keys_json ≡ some json) × ((json == "") ≡ false))
      ⊎ (((o.node_env == "production") ≡ false)
          × ((url : Url) × (out.parse_url o.server_ws_url ≡ some url)
              × (is_loopback out url.hostname ≡ true)))
