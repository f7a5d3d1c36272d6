-- ===== src/Sidecar/Environment.antt =====
-- `buildSidecarEnvironment`: what the process may read of the desktop's environment.
use smart_form.Base.{
  String, Bool, ◌||◌, Option, none, some, List, [], ◌∷◌, ◌==◌, any, if◌then◌else◌, codes, is_prefix,
}

abbrev allowed_exact : List String
allowed_exact =
    "PATH" ∷ "Path" ∷ "SYSTEMROOT" ∷ "SystemRoot" ∷ "WINDIR" ∷ "TEMP" ∷ "TMP" ∷ "TMPDIR" ∷ "HOME"
    ∷ "USERPROFILE" ∷ "LOCALAPPDATA" ∷ "APPDATA" ∷ "SSL_CERT_FILE" ∷ "SSL_CERT_DIR" ∷ "HTTP_PROXY"
    ∷ "HTTPS_PROXY" ∷ "NO_PROXY" ∷ "OPENAI_API_KEY" ∷ []

abbrev pub is_allowed : String → Bool
is_allowed key = any (λ k. k == key) allowed_exact || is_prefix (codes "BROWSER_USE_") (codes key)

-- A value may be undefined.
unfoldable pub build_sidecar_environment : List (String × Option String) → List (String × String)
build_sidecar_environment [] = []
build_sidecar_environment ((key, none) ∷ source) = build_sidecar_environment source
build_sidecar_environment ((key, some value) ∷ source) =
    let rest = build_sidecar_environment source in
    if is_allowed key then (key, value) ∷ rest else rest
