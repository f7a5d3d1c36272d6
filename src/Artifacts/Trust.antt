-- ===== src/Artifacts/Trust.antt =====
-- apps/desktop/src/agent/artifact-trust.ts: where the keys come from that artifacts are checked with.
use smart_form.Base.{
  String, Bool, false, not, ◌||◌, Option, none, some, List, [], ◌∷◌, ◌==◌, truthy, includes,
  text_concat, if◌then◌else◌,
}
use smart_form.Base.Exec.{Exec, pure, throw, ◌>>=◌, ◌>>◌, require, try_catch}
use smart_form.Contracts.Json.{Json, str, Payload}
use smart_form.Contracts.Artifact.{Failure, error}
use smart_form.Artifacts.Loader.{Url, Outside, required}

pub record ArtifactTrustOptions : Type 0 where
  pub configured_keys_json : Option String
  pub node_env : String
  pub server_ws_url : String
  pub access_token : String

module _ {W Key : Type 0} (out : Outside W Key) where
  -- A `Map` keeps one entry for a key.
  unfoldable pub set_key : String → Key → List (String × Key) → List (String × Key)
  set_key id key [] = (id, key) ∷ []
  set_key id key ((j, k) ∷ keys) =
      if j == id then (id, key) ∷ keys else (j, k) ∷ set_key id key keys

  abbrev key_text : String → Json → Exec Failure W String
  key_text id (str encoded) = do
    require (truthy (some encoded)) (error (text_concat "Artifact signing key is invalid: " id))
    pure encoded
  key_text id other = throw (error (text_concat "Artifact signing key is invalid: " id))

  abbrev decode_key : String → Option Key
  decode_key encoded =
      if includes encoded "BEGIN PUBLIC KEY" then out.pem_key encoded else out.der_key encoded

  unfoldable pub parse_entries :
      List (String × Json) → List (String × Key) → Exec Failure W (List (String × Key))
  unfolding set_key
  parse_entries [] keys = pure keys
  parse_entries ((id, value) ∷ entries) keys = do
    encoded ← key_text id value
    key ← required (decode_key encoded) "Invalid key"
    parse_entries entries (set_key id key keys)

  abbrev at_least_one : List (String × Key) → Exec Failure W (List (String × Key))
  at_least_one [] = throw (error "At least one artifact signing key is required")
  at_least_one (k ∷ keys) = pure (k ∷ keys)

  unfoldable pub parse_configured_keys : String → Exec Failure W (List (String × Key))
  unfolding parse_entries
  parse_configured_keys input = do
    entries ← required (out.json_entries input) "Unexpected token in JSON"
    keys ← parse_entries entries []
    at_least_one keys

  abbrev pub is_loopback : String → Bool
  is_loopback hostname = hostname == "127.0.0.1" || hostname == "localhost" || hostname == "::1"

  abbrev text_entry : String → Payload → Option String
  text_entry key [] = none
  text_entry key ((k, str s) ∷ rest) = if k == key then some s else text_entry key rest
  text_entry key ((k, v) ∷ rest) = if k == key then none else text_entry key rest

  abbrev document_error : String
  document_error = "Control plane returned an invalid signing-key document"

  abbrev is_ed25519 : Option String → Bool
  is_ed25519 none = false
  is_ed25519 (some algorithm) = algorithm == "Ed25519"

  unfoldable pub key_of_document : Payload → Exec Failure W (List (String × Key))
  key_of_document payload = do
    id ← required (text_entry "keyId" payload) document_error
    require (is_ed25519 (text_entry "algorithm" payload)) (error document_error)
    pem ← required (text_entry "publicKeyPem" payload) document_error
    key ← required (out.pem_key pem) "Invalid key"
    pure ((id, key) ∷ [])

  abbrev endpoint_of : Url → Url
  endpoint_of url = record url {
    protocol = if url.protocol == "wss:" then "https:" else "http:";
    pathname = "/v1/artifacts/signing-keys/current";
    search = "";
    fragment = "";
  }

  unfoldable pub discover : ArtifactTrustOptions → Url → Exec Failure W (List (String × Key))
  unfolding key_of_document
  discover o url = do
    response ← out.fetch (endpoint_of url) o.access_token
    require response.successful (
        error
          (text_concat "Unable to load development artifact signing key: HTTP " response.status))
    payload ← response.json
    key_of_document payload

  -- The development mode goes on without keys.
  unfoldable pub discover_or_none :
      ArtifactTrustOptions → Url → Exec Failure W (List (String × Key))
  unfolding discover
  discover_or_none o url =
      try_catch (discover o url) (λ e. if o.node_env == "production" then throw e else pure [])

  unfoldable pub discovered_trust : ArtifactTrustOptions → Exec Failure W (List (String × Key))
  unfolding discover_or_none
  discovered_trust o = do
    require (not (o.node_env == "production"))
        (error "Production requires pinned ARTIFACT_SIGNING_PUBLIC_KEYS_JSON")
    url ← required (out.parse_url o.server_ws_url) "Invalid URL"
    require (is_loopback url.hostname)
        (error "Development signing-key discovery is restricted to loopback")
    discover_or_none o url

  unfoldable pub trust_from :
      ArtifactTrustOptions → Option String → Exec Failure W (List (String × Key))
  trust_from o none = discovered_trust o
  trust_from o (some json) = if json == "" then discovered_trust o else parse_configured_keys json

  unfoldable pub load_artifact_trust : ArtifactTrustOptions → Exec Failure W (List (String × Key))
  unfolding trust_from
  load_artifact_trust o = trust_from o o.configured_keys_json
