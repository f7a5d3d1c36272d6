-- ===== src/Artifacts/Verified.antt =====
-- Which artifacts are accepted, and that what was signed is.
use smart_form.Base.{
  ℕ, String, true, ◌≡◌, refl, ◌↔◌, Option, none, some, List, arith, eq_iff, any, length, subst,
}
use smart_form.Contracts.Artifact.{
  RuntimeCompatibility, ArtifactReference, ArtifactTransport, ExecutionEnvironment, chromium,
  Browser,
}
use smart_form.Artifacts.{
  Tools, accepted, same_mode, same_browser, signature_payload, sign_artifact_reference, satisfies,
  verify_runtime_compatibility, verify_compatibility, or_else, verify_with_key, verify_artifact,
}

some-injective : {A : Type 0} (a b : A) → some a ≡ some b → b ≡ a
some-injective a b e = cc

module _ {Key : Type 0} (tools : Tools Key) where
  pub record IsCompatible (c : RuntimeCompatibility) (e : ExecutionEnvironment) : Type 0 where
    pub protocol : c.protocol_version ≡ e.protocol_version
    pub sdk : satisfies tools e.sdk_version c.sdk_range ≡ true
    pub playwright : satisfies tools e.playwright_version c.playwright_range ≡ true
    pub node : satisfies tools e.node_version c.node_range ≡ true
    pub mode : any (same_mode e.execution_mode) c.execution_modes ≡ true

  pub record IsVerified (r : ArtifactReference) (content : List ℕ) (e : ExecutionEnvironment)
      (given : Option RuntimeCompatibility) (trusted : String → Option Key) : Type 0 where
    pub tenant : r.tenant_id ≡ e.tenant_id
    pub size : r.content_length ≡ length content
    pub hash : tools.sha256 content ≡ tools.lower r.sha256
    pub key : Key
    pub known : trusted r.signing_key_id ≡ some key
    pub signed :
        tools.verify (tools.utf8 (signature_payload tools r)) key (tools.from_base64 r.signature)
        ≡ true
    pub declared : RuntimeCompatibility
    pub counts : or_else tools given r.compatibility ≡ some declared
    pub compatible : IsCompatible declared e

  same_browser-eq-true : (a b : Browser) → same_browser a b ≡ true
  same_browser-eq-true chromium chromium = refl

  runtime_iff :
      (c : RuntimeCompatibility) (e : ExecutionEnvironment)
      → (verify_runtime_compatibility tools c e ≡ accepted) ↔ IsCompatible c e
  unfolding verify_runtime_compatibility
  runtime_iff c e = (
    λ h. ground (arith, eq_iff c.protocol_version e.protocol_version),
    λ h. ground (
      arith,
      eq_iff c.protocol_version e.protocol_version,
      same_browser-eq-true c.browser e.browser,
    ),
  )

  compatibility_iff :
      (o : Option RuntimeCompatibility) (e : ExecutionEnvironment)
      → (verify_compatibility tools o e ≡ accepted)
        ↔ ((c : RuntimeCompatibility) × (o ≡ some c) × IsCompatible c e)
  unfolding verify_compatibility
  compatibility_iff none e = (λ h. absurd (ground arith), λ h. absurd (ground arith))
  compatibility_iff (some c) e = (
    λ h. (c, refl, (runtime_iff c e).0 h),
    λ h. (runtime_iff c e).1 (subst (λ x. IsCompatible x e) (some-injective c h.0 h.1) h.2),
  )

  module _ (r : ArtifactReference) (e : ExecutionEnvironment)
      (given : Option RuntimeCompatibility) where
    abbrev IsSigned : Key → Type 0
    IsSigned key =
        tools.verify (tools.utf8 (signature_payload tools r)) key (tools.from_base64 r.signature)
        ≡ true

    with_key_iff :
        (o : Option Key)
        → (verify_with_key tools r e given o ≡ accepted) ↔ (
            (key : Key) × (o ≡ some key)
            × IsSigned key
            × (verify_compatibility tools (or_else tools given r.compatibility) e ≡ accepted))
    unfolding verify_with_key
    with_key_iff none = (λ h. absurd (ground arith), λ h. absurd (ground arith))
    with_key_iff (some key) = (
      λ h. (key, refl, ground arith, ground arith),
      λ h. rw (subst IsSigned (some-injective key h.0 h.1) h.2) h.3,
    )

    first_tests :
        (content : List ℕ) (trusted : String → Option Key)
        → (verify_artifact tools r content e given trusted ≡ accepted) ↔ (
            (r.tenant_id ≡ e.tenant_id)
            × (r.content_length ≡ length content)
            × (tools.sha256 content ≡ tools.lower r.sha256)
            × (verify_with_key tools r e given (trusted r.signing_key_id) ≡ accepted))
    unfolding verify_artifact
    first_tests content trusted = (
      λ h. ground (
        arith,
        eq_iff r.tenant_id e.tenant_id,
        eq_iff (tools.sha256 content) (tools.lower r.sha256),
      ),
      λ h. ground (
        arith,
        eq_iff r.tenant_id e.tenant_id,
        eq_iff (tools.sha256 content) (tools.lower r.sha256),
      ),
    )

    -- An artifact is accepted exactly when it is the device's tenant's, has the length and the hash
    -- that its reference states, the reference is signed by a trusted key, and the compatibility that
    -- counts, that of the caller before that of the reference, fits the device.
    pub verify_artifact_iff :
        (content : List ℕ) (trusted : String → Option Key)
        → (verify_artifact tools r content e given trusted ≡ accepted)
          ↔ IsVerified r content e given trusted
    verify_artifact_iff content trusted = (
      λ h.
          let (tenant, size, hash, rest) = (first_tests content trusted).0 h in
          let (key, known, signed, fits) = (with_key_iff (trusted r.signing_key_id)).0 rest in
          let (declared, counts, compatible) =
            (compatibility_iff (or_else tools given r.compatibility) e).0 fits in
          record {
            tenant = tenant;
            size = size;
            hash = hash;
            key = key;
            known = known;
            signed = signed;
            declared = declared;
            counts = counts;
            compatible = compatible;
          },
      λ v. (first_tests content trusted).1 (
        v.tenant,
        v.size,
        v.hash,
        (with_key_iff (trusted r.signing_key_id)).1 (
          v.key,
          v.known,
          v.signed,
          (compatibility_iff (or_else tools given r.compatibility) e).1
              (v.declared, v.counts, v.compatible),
        ),
      ),
    )

-- A reference that was signed with the private half of a trusted key is accepted with its content,
-- whatever transport it is sent with, where it fits the device.
pub verify-sign :
    {Key : Type 0} (tools : Tools Key) (r : ArtifactReference) (e : ExecutionEnvironment)
    (given : Option RuntimeCompatibility) (content : List ℕ) (trusted : String → Option Key)
    (private public : Key) (transport : ArtifactTransport) (declared : RuntimeCompatibility)
    → ((m : List ℕ)
        → tools.verify m public (tools.from_base64 (tools.to_base64 (tools.sign m private))) ≡ true)
    → r.tenant_id ≡ e.tenant_id
    → r.content_length ≡ length content
    → tools.sha256 content ≡ tools.lower r.sha256
    → trusted r.signing_key_id ≡ some public
    → or_else tools given r.compatibility ≡ some declared
    → IsCompatible tools declared e
    → verify_artifact tools
        (record (sign_artifact_reference tools r private) { transport = transport })
        content
        e
        given
        trusted
      ≡ accepted
unfolding sign_artifact_reference signature_payload
verify-sign tools r e given content trusted private public transport declared pair tenant size hash
      known counts compatible =
    (verify_artifact_iff tools
        (record (sign_artifact_reference tools r private) { transport = transport }) e given content
        trusted).1
      (record {
        tenant = tenant;
        size = size;
        hash = hash;
        key = public;
        known = known;
        signed = pair (tools.utf8 (signature_payload tools r));
        declared = declared;
        counts = counts;
        compatible = compatible;
      })
