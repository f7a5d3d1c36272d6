-- ===== src/Server/Resources/Tests.antt =====
-- A prompt in two versions.
use smart_form.Base.{String, ◌≡◌, refl, none, some, [], ◌∷◌}
use smart_form.Contracts.Artifact.{ManagedResourceKind, local}
use smart_form.Contracts.Resource.{ManagedResourceVersion, validating}
use smart_form.Server.Resources.{Repository, find_version}
use smart_form.Server.Resources.Versions.{publishes, activates, serve_all, version_immutable}

abbrev prompt : String → ManagedResourceVersion
prompt version = record {
  resource_id = "orders";
  tenant_id = "tenant";
  kind = ManagedResourceKind.prompt;
  name = "Orders";
  version = version;
  status = validating;
  criteria = record { intents = []; domains = []; tags = []; modes = []; priority = 50 };
  artifact = record {
    artifact_id = "orders";
    tenant_id = "tenant";
    kind = ManagedResourceKind.prompt;
    version = version;
    sha256 = "00";
    signature = "sig";
    signing_key_id = "key";
    content_length = 2;
    transport = local "orders.json";
    compatibility = none;
    published_at = "2026-07-31T00:00:00.000Z";
  };
  metadata = [];
  created_at = "2026-07-31T00:00:00.000Z";
  created_by = "u1";
}

abbrev one_version : Repository
one_version = record { versions = ("tenant\0orders\01", prompt "1") ∷ []; active_versions = [] }

stored : find_version "tenant" "orders" "1" one_version ≡ some (prompt "1")
unfolding find_version
stored = refl

version_immutable_example :
    find_version "tenant" "orders" "1" (
      serve_all one_version
        (publishes (prompt "1") ∷ publishes (prompt "2") ∷ activates "tenant" "orders" "2" ∷ []))
    ≡ some (prompt "1")
version_immutable_example =
    version_immutable
      (publishes (prompt "1") ∷ publishes (prompt "2") ∷ activates "tenant" "orders" "2" ∷ [])
      (prompt "1") "tenant" "orders" "1" one_version stored
