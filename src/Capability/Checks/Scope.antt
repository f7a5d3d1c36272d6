-- ===== src/Capability/Checks/Scope.antt =====
-- What a bundle that passed the checks for a task asks of the browser: the runner's own test of a
-- navigation accepts it, and a capability for reading writes nothing.
use smart_form.Base.{
  String, ◌≡◌, refl, sym, ap, true, ◌&&◌, ◌||◌, Option, none, some, List, [], ◌∷◌, ◌++◌, arith, any,
  All, Bool-cases, inl, inr, eq_iff, ◌==◌, includes, text_concat,
}
use smart_form.Base.Exec.{Exec, ok}
use smart_form.Base.Exec.Preserves.{
  Yields, Yields-pure, Yields-bind, Yields-bind_known, Yields-require,
}
use smart_form.Contracts.Artifact.{Failure, ArtifactReference}
use smart_form.Contracts.Task.{TaskDefinition, same_mode, same_type, TaskMode, TaskType}
use smart_form.Contracts.Program.{
  CapabilityStep, CapabilityArtifactBundle, navigate, click, fill, select, press, wait_for, extract,
  submit,
}
use smart_form.Lease.{Urls, lower_host}
use smart_form.Runner.{is_url_allowed, normalize_hostname, same_host, lowered, hostname}
use smart_form.Capability.{
  Decoded, bundle, check_task, parse_and_validate, compatibility_of, normalize_domain,
  normalize_domains, within_domains, within_navigation,
}
use smart_form.Capability.Checks.{IsSafe, validate_publication-Yields}

same_mode_lem : (a b : TaskMode) → same_mode a b ≡ true → a ≡ b
same_mode_lem a b h = ground arith

same_type_lem : (a b : TaskType) → same_type a b ≡ true → a ≡ b
same_type_lem a b h = ground arith

module _ (urls : Urls) where
  abbrev SameDomains : List String → List String → Type 0
  SameDomains ds hs =
      (h : String) → any (λ k. k == h) hs ≡ any (λ d. same_host (normalize_hostname urls d) h) ds

  -- A navigation by a URL with a scheme goes to one of the domains.
  abbrev pub StaysInside : List String → CapabilityStep → Type 0
  StaysInside domains (navigate url) =
      includes url "://" ≡ true → is_url_allowed urls url domains ≡ true
  StaysInside domains step = Unit {0}

  navigation_allowed :
      (domains known : List String) (url h : String)
      → SameDomains domains known
      → normalize_hostname urls url ≡ some h
      → any (λ k. k == h) known ≡ true
      → includes url "://" ≡ true
      → is_url_allowed urls url domains ≡ true
  unfolding is_url_allowed normalize_hostname
  navigation_allowed domains known url h same parsed found full =
      let parsed' : hostname urls url ≡ some h = rw full at parsed in
      rw parsed' (rw (sym (same h)) found)

  -- What the checks for a task grant of a bundle.
  pub record FitsTask (task : TaskDefinition) (b : CapabilityArtifactBundle) : Type 0 where
    pub tenant : b.manifest.tenant_id ≡ task.tenant_id
    pub mode : b.manifest.mode ≡ task.mode
    pub task_type : b.manifest.task_type ≡ task.task_type
    pub inside : All (StaysInside task.site.allowed_domains) b.program

module _ {S A : Type 0} {P : Type 0} where
  skipped : {m : Exec Failure S A} → Yields (λ _. P) m → Yields (λ _. Unit {0} × P) m
  skipped known = record { at = λ s a e. (tt, known.at s a e) }

module _ {S : Type 0} (urls : Urls) where
  lower_host-Yields :
      (h : Option String) → Yields {S = S} (λ t. lowered urls h ≡ some t) (lower_host urls h)
  lower_host-Yields none = record { at = λ s t e. absurd (ground arith) }
  lower_host-Yields (some h) = Yields-pure _ refl

  normalize_domain-Yields :
      (d : String)
      → Yields {S = S} (λ h. normalize_hostname urls d ≡ some h) (normalize_domain urls d)
  unfolding normalize_domain normalize_hostname
  normalize_domain-Yields d = elim (Bool-cases (includes d "://")) [
    | inl full ↦ rw full (lower_host-Yields (urls.hostname d))
    | inr bare ↦ rw bare (lower_host-Yields (urls.hostname (text_concat "https://" d)))
  ]

  normalize_domains-Yields :
      (ds : List String) → Yields {S = S} (SameDomains urls ds) (normalize_domains urls ds)
  unfolding normalize_domains
  normalize_domains-Yields [] = Yields-pure [] λ h. refl
  normalize_domains-Yields (d ∷ ds) =
      Yields-bind_known (λ h. normalize_hostname urls d ≡ some h) _ _ (normalize_domain-Yields d)
        λ h first.
          Yields-bind_known (SameDomains urls ds) _ _ (normalize_domains-Yields ds)
            λ hs rest. Yields-pure (h ∷ hs) λ k. rw first (ap (λ b. h == k || b) (rest k))

  within_navigation-Yields :
      (domains known : List String) (program : List CapabilityStep)
      → SameDomains urls domains known
      → Yields {S = S}
          (λ _. All (StaysInside urls domains) program)
          (within_navigation urls known program)
  unfolding within_navigation
  within_navigation-Yields domains known [] same = Yields-pure tt tt
  within_navigation-Yields domains known (navigate url ∷ steps) same =
      Yields-bind_known (λ h. normalize_hostname urls url ≡ some h) _ _
        (normalize_domain-Yields url)
        λ h parsed.
          Yields-bind_known (λ _. any (λ k. k == h) known ≡ true) _ _ (Yields-require _ _)
            λ _ found. record {
              at = λ s a e. (
                λ full. navigation_allowed urls domains known url h same parsed found full,
                (within_navigation-Yields domains known steps same).at s a e,
              );
            }
  within_navigation-Yields domains known (click selector ∷ steps) same =
      skipped (within_navigation-Yields domains known steps same)
  within_navigation-Yields domains known (fill selector v ∷ steps) same =
      skipped (within_navigation-Yields domains known steps same)
  within_navigation-Yields domains known (select selector v ∷ steps) same =
      skipped (within_navigation-Yields domains known steps same)
  within_navigation-Yields domains known (press selector key ∷ steps) same =
      skipped (within_navigation-Yields domains known steps same)
  within_navigation-Yields domains known (wait_for selector state ∷ steps) same =
      skipped (within_navigation-Yields domains known steps same)
  within_navigation-Yields domains known (extract collection n fields ∷ steps) same =
      skipped (within_navigation-Yields domains known steps same)
  within_navigation-Yields domains known (submit selector keys ∷ steps) same =
      skipped (within_navigation-Yields domains known steps same)

  check_task-Yields :
      (b : CapabilityArtifactBundle) (task : TaskDefinition)
      → Yields {S = S} (λ _. FitsTask urls task b) (check_task urls b task)
  unfolding check_task
  check_task-Yields b task =
      Yields-bind_known (λ _. (b.manifest.tenant_id == task.tenant_id) ≡ true) _ _
        (Yields-require _ _)
        λ _ tenant.
          Yields-bind_known
            (λ _.
              (same_mode b.manifest.mode task.mode && same_type b.manifest.task_type task.task_type)
              ≡ true)
            _ _ (Yields-require _ _)
            λ _ kinds.
              Yields-bind_known (SameDomains urls task.site.allowed_domains) _ _
                (normalize_domains-Yields task.site.allowed_domains)
                λ known same.
                  Yields-bind
                    (within_domains urls known
                      "Capability requests a domain outside the task scope: "
                      (b.manifest.site.domains ++ b.manifest.permissions.domains))
                    _
                    λ _. record {
                      at = λ s a e. record {
                        tenant = (eq_iff b.manifest.tenant_id task.tenant_id).0 tenant;
                        mode = same_mode_lem _ _ (ground (arith, kinds));
                        task_type = same_type_lem _ _ (ground (arith, kinds));
                        inside =
                            (within_navigation-Yields task.site.allowed_domains known b.program
                                same).at
                              s a e;
                      };
                    }

  validated-Yields :
      (content : Decoded) (reference : ArtifactReference) (task : TaskDefinition)
      → Yields {S = S}
          (λ b. IsSafe b.manifest b.program × FitsTask urls task b)
          (parse_and_validate urls content reference task)
  unfolding parse_and_validate
  validated-Yields content reference task =
      Yields-bind (compatibility_of reference.compatibility) _ λ compatibility.
        Yields-bind_known (λ b. (content ≡ bundle b) × IsSafe b.manifest b.program) _ _
          (validate_publication-Yields urls content _)
          λ b safe.
            Yields-bind_known (λ _. FitsTask urls task b) _ _ (check_task-Yields b task)
              λ _ fits. Yields-pure b (safe.1, fits)

-- A bundle that is accepted for a task has the task's tenant, mode and type; it navigates, by URLs
-- with a scheme, only to where the runner lets the task go; if its mode is read, it has no step that
-- writes; if it submits, it is a high-risk capability for writing that asks for approval; and it
-- clicks on no selector that looks like a commit.
pub validated_lem :
    {S : Type 0} (urls : Urls) (content : Decoded) (reference : ArtifactReference)
    (task : TaskDefinition) (s : S) (b : CapabilityArtifactBundle)
    → (parse_and_validate urls content reference task s).0 ≡ ok b
    → IsSafe b.manifest b.program × FitsTask urls task b
validated_lem urls content reference task s b accepted =
    (validated-Yields urls content reference task).at s b accepted
