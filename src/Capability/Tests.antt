-- ===== src/Capability/Tests.antt =====
-- A capability that collects orders, and its checks.
use smart_form.Base.{◌≡◌, refl, true, false, none, some, [], ◌∷◌, includes, matches_word}
use smart_form.Runner.{is_commit_selector}
use smart_form.Base.Exec.{ok}
use smart_form.Contracts.Artifact.{
  ArtifactReference, RuntimeCompatibility, chromium, cdp, ManagedResourceKind, local,
}
use smart_form.Contracts.Task.{collect, read}
use smart_form.Contracts.Program.{
  CapabilityArtifactBundle, CapabilityManifest, declarative_v1, passed, low, click,
}
use smart_form.Runner.Tests.{page, orders}
use smart_form.Capability.{
  bundle, parse_and_validate, validate_publication, check_manifest, normalize_domains,
  normalize_domain, within_domains, within_navigation, same_compatibility, check_steps, check_task,
  read_only, plain_clicks,
}
use smart_form.Capability.Checks.{IsSafe}
use smart_form.Capability.Checks.Scope.{FitsTask, validated_lem}

abbrev runtime : RuntimeCompatibility
runtime = record {
  protocol_version = "1.0.0";
  sdk_range = "^1.0.0";
  playwright_range = "^1.50.0";
  node_range = ">=20";
  browser = chromium;
  execution_modes = cdp ∷ [];
}

abbrev manifest : CapabilityManifest
manifest = record {
  schema_version = "1.1";
  capability_id = "orders";
  version = "1.0.0";
  tenant_id = "tenant";
  name = "Orders";
  task_type = collect;
  mode = read;
  site = record {
    domains = "forms.example.com" ∷ [];
    entry_url_patterns = [];
    module_name = "orders";
  };
  runtime = runtime;
  language = declarative_v1;
  permissions = record {
    domains = [];
    downloads = false;
    uploads = false;
    filesystem = [];
    requires_human_login = false;
  };
  validation = record {
    status = passed;
    validated_at = none;
    consecutive_passes = 3;
    success_rate_30d = none;
  };
  fingerprints = [];
  entrypoint = "program";
  risk_level = low;
  requires_approval = false;
  reversible = true;
}

abbrev collector : CapabilityArtifactBundle
collector = record { manifest = manifest; program = click "#next" ∷ [] }

abbrev reference : ArtifactReference
reference = record {
  artifact_id = "orders";
  tenant_id = "tenant";
  kind = ManagedResourceKind.capability;
  version = "1.0.0";
  sha256 = "00";
  signature = "sig";
  signing_key_id = "key";
  content_length = 2;
  transport = local "orders.json";
  compatibility = some runtime;
  published_at = "2026-07-31T00:00:00.000Z";
}

accepted :
    (parse_and_validate page.urls (bundle collector) reference (orders read) tt).0 ≡ ok collector
unfolding parse_and_validate validate_publication check_manifest normalize_domains within_domains
    same_compatibility check_steps is_commit_selector matches_word check_task includes
    normalize_domain within_navigation read_only plain_clicks
accepted = refl

validated_lem_example :
    IsSafe collector.manifest collector.program × FitsTask page.urls (orders read) collector
validated_lem_example =
    validated_lem page.urls (bundle collector) reference (orders read) tt collector accepted
