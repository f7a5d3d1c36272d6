-- ===== src/Artifacts/Tests.antt =====
-- Concrete artifacts, with a toy signature: a key signs with its own number.
use smart_form.Base.{
  ℕ, String, Bool, true, false, ◌≡◌, refl, ◌↔◌, Option, none, some, List, [], ◌∷◌, ◌==◌, separated,
  if◌then◌else◌, nat_eq, ◌&&◌,
}
use smart_form.Base.Exec.{pure}
use smart_form.Contracts.Artifact.{
  ArtifactReference, https, local, RuntimeCompatibility, ExecutionEnvironment, capability, chromium,
  cdp,
}
use smart_form.Artifacts.{
  Tools, accepted, verify_artifact, sign_artifact_reference, signature_payload,
}
use smart_form.Artifacts.Verified.{IsCompatible, IsVerified, verify_artifact_iff, verify-sign}
use smart_form.Artifacts.Payload.{newline, signature_payload_moves}
use smart_form.Artifacts.Loader.{Outside, Url, ArtifactLoaderConfig}
use smart_form.Artifacts.Trust.{ArtifactTrustOptions}

abbrev is_one : List ℕ → Bool
is_one [] = false
is_one (n ∷ rest) = nat_eq n 1

abbrev tools : Tools ℕ
tools = record {
  sha256 = λ content. "ab";
  sign = λ message key. key ∷ [];
  verify = λ message key signature. is_one signature && nat_eq key 1;
  to_base64 = λ bytes. if is_one bytes then "one" else "other";
  from_base64 = λ text. if text == "one" then 1 ∷ [] else [];
  utf8 = λ text. [];
  lower = λ text. text;
  number_text = λ n. "2";
  compatibility_json = λ c. "{}";
  valid = λ version. true;
  valid_range = λ range. true;
  in_range = λ version range. true;
}

abbrev compatibility : RuntimeCompatibility
compatibility = record {
  protocol_version = "1";
  sdk_range = "^1";
  playwright_range = "^1";
  node_range = "^20";
  browser = chromium;
  execution_modes = cdp ∷ [];
}

abbrev reference : ArtifactReference
reference = record {
  artifact_id = "orders";
  tenant_id = "acme";
  kind = capability;
  version = "1.0.0";
  sha256 = "ab";
  signature = "one";
  signing_key_id = "k1";
  content_length = 2;
  transport = local "orders";
  compatibility = some compatibility;
  published_at = "2026-01-01T00:00:00Z";
}

abbrev device : ExecutionEnvironment
device = record {
  tenant_id = "acme";
  device_id = "desk";
  protocol_version = "1";
  sdk_version = "1.2.0";
  playwright_version = "1.50.0";
  node_version = "20.0.0";
  browser = chromium;
  execution_mode = cdp;
}

abbrev trusted : String → Option ℕ
trusted id = if id == "k1" then some 1 else none

fits : IsCompatible tools compatibility device
fits = record { protocol = refl; sdk = refl; playwright = refl; node = refl; mode = refl }

verify_artifact_iff_example :
    (verify_artifact tools reference (7 ∷ 8 ∷ []) device none trusted ≡ accepted)
    ↔ IsVerified tools reference (7 ∷ 8 ∷ []) device none trusted
verify_artifact_iff_example = verify_artifact_iff tools reference device none (7 ∷ 8 ∷ []) trusted

verify-sign_example :
    verify_artifact tools
      (record (sign_artifact_reference tools reference 1) { transport = https "https://a.example" })
      (7 ∷ 8 ∷ [])
      device
      none
      trusted
    ≡ accepted
verify-sign_example =
    verify-sign tools reference device none (7 ∷ 8 ∷ []) trusted 1 1 (https "https://a.example")
      compatibility (λ m. refl) refl refl refl refl refl fits

signature_payload_moves_example :
    signature_payload tools
      (record reference { artifact_id = "a"; tenant_id = separated newline "b" "c" })
    ≡ signature_payload tools
        (record reference { artifact_id = separated newline "a" "b"; tenant_id = "c" })
signature_payload_moves_example = signature_payload_moves tools reference "a" "b" "c"

abbrev loopback : Url
loopback = record {
  protocol = "ws:";
  hostname = "localhost";
  host_origin = "ws://localhost";
  pathname = "/";
  search = "";
  fragment = "";
}

abbrev disk : Outside (Unit {0}) ℕ
disk = record {
  parse_url = λ text. some loopback;
  fetch = λ url token. pure (record {
    successful = false;
    status = "404";
    content_length = none;
    body = pure [];
    json = pure [];
  });
  number_of = λ text. none;
  resolve = λ parts. "/artifacts/acme/orders/artifact.bin";
  separator = "";
  read_file = λ path. pure (some (7 ∷ 8 ∷ []));
  json_entries = λ text. none;
  pem_key = λ text. none;
  der_key = λ text. none;
}

abbrev config : ArtifactLoaderConfig ℕ
config = record {
  environment = device;
  trusted_signing_keys = trusted;
  access_token = "token";
  local_artifact_root = some "/artifacts";
  allowed_https_origins = none;
  max_artifact_bytes = none;
}

abbrev options : ArtifactTrustOptions
options = record {
  configured_keys_json = none;
  node_env = "development";
  server_ws_url = "ws://localhost:3000";
  access_token = "token";
}
