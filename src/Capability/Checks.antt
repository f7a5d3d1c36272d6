-- ===== src/Capability/Checks.antt =====
-- What a bundle that passed the checks fulfils.
pub mod Scope
use smart_form.Base.{
  String, ◌≡◌, refl, Bool, true, false, not, ◌&&◌, ◌||◌, Option, none, some, List, [], ◌∷◌, arith,
  any, All, Bool-cases, inl, inr, eq_iff, ◌==◌, if◌then◌else◌,
}
use smart_form.Base.Exec.{Exec, Result, ok, err, pure, throw, ◌>>=◌, ◌>>◌, require}
use smart_form.Base.Exec.Preserves.{
  Yields, Yields-pure, Yields-bind, Yields-bind_known, Yields-require,
}
use smart_form.Contracts.Artifact.{Failure, ArtifactReference}
use smart_form.Contracts.Task.{TaskDefinition, is_write, same_mode, same_type, TaskMode, read}
use smart_form.Contracts.Program.{
  CapabilityStep, CapabilityManifest, CapabilityArtifactBundle, high,
}
use smart_form.Lease.{Urls}
use smart_form.Runner.{Page}
use smart_form.Runner.Steps.{run_program, starting}
use smart_form.Runner.Reads.{IsReading, run_program-IsReading}
use smart_form.Capability.{
  Decoded, bundle, malformed, Expected, is_write_step, is_submit_step, is_commit_click, is_high,
  read_only, plain_clicks, check_steps, check_manifest, validate_publication, check_task,
  parse_and_validate, decoded, compatibility_of, normalize_domains, within_domains,
  within_navigation,
}

-- What `check_steps` grants.
pub record IsSafe (m : CapabilityManifest) (program : List CapabilityStep) : Type 0 where
  pub reads : is_write m.mode ≡ false → any is_write_step program ≡ false
  pub submits :
      any is_submit_step program ≡ true
      → (is_write m.mode ≡ true) × (m.requires_approval ≡ true) × (m.risk_level ≡ high)
  pub clicks : any is_commit_click program ≡ false

module _ {S : Type 0} where
  read_only-Yields :
      (program : List CapabilityStep)
      → Yields {S = S} (λ _. any is_write_step program ≡ false) (read_only program)
  unfolding read_only
  read_only-Yields [] = Yields-pure tt refl
  read_only-Yields (step ∷ steps) =
      Yields-bind_known (λ _. not (is_write_step step) ≡ true) _ _ (Yields-require _ _)
        λ _ plain. record { at = λ s a e. ground (arith, plain, (read_only-Yields steps).at s a e) }

  plain_clicks-Yields :
      (program : List CapabilityStep)
      → Yields {S = S} (λ _. any is_commit_click program ≡ false) (plain_clicks program)
  unfolding plain_clicks
  plain_clicks-Yields [] = Yields-pure tt refl
  plain_clicks-Yields (step ∷ steps) =
      Yields-bind_known (λ _. not (is_commit_click step) ≡ true) _ _ (Yields-require _ _)
        λ _ plain. record {
          at = λ s a e. ground (arith, plain, (plain_clicks-Yields steps).at s a e);
        }

  mode_steps-Yields :
      (write : Bool) (program : List CapabilityStep)
      → Yields {S = S}
          (λ _. write ≡ false → any is_write_step program ≡ false)
          (if write then pure tt else read_only program)
  mode_steps-Yields true program = Yields-pure tt λ h. absurd (ground arith)
  mode_steps-Yields false program = record { at = λ s a e h. (read_only-Yields program).at s a e }

  pub check_steps-Yields :
      (m : CapabilityManifest) (program : List CapabilityStep)
      → Yields {S = S} (λ _. IsSafe m program) (check_steps m program)
  unfolding check_steps
  check_steps-Yields m program =
      Yields-bind_known (λ _. is_write m.mode ≡ false → any is_write_step program ≡ false) _ _
        (mode_steps-Yields (is_write m.mode) program)
        λ _ reads.
          Yields-bind_known
            (λ _.
              not (
                any is_submit_step program
                && (not (is_write m.mode) || not m.requires_approval || not (is_high m.risk_level)))
              ≡ true)
            _ _ (Yields-require _ _)
            λ _ submits. record {
              at = λ s a e. record {
                reads = reads;
                submits = λ some_submit. ground (arith, submits, some_submit);
                clicks = (plain_clicks-Yields program).at s a e;
              };
            }

  pub validate_publication-Yields :
      (urls : Urls) (content : Decoded) (expected : Expected)
      → Yields {S = S}
          (λ b. (content ≡ bundle b) × IsSafe b.manifest b.program)
          (validate_publication urls content expected)
  unfolding validate_publication
  validate_publication-Yields urls (malformed text) expected = record {
    at = λ s b e. absurd (ground arith);
  }
  validate_publication-Yields urls (bundle b) expected =
      Yields-bind (check_manifest urls b.manifest expected) _ λ _.
        Yields-bind_known (λ _. IsSafe b.manifest b.program) _ _
          (check_steps-Yields b.manifest b.program) λ _ safe. Yields-pure b (refl, safe)
