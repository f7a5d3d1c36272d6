-- ===== src/Runner/Steps.antt =====
-- packages/playwright-runner/src/program-runner.ts: one function for each kind of step, and the loop.
use smart_form.Base.{
  ℕ, suc, min, String, Bool, true, false, not, Option, none, some, List, [], ◌∷◌, ◌++◌, ◌==◌,
  text_concat, if◌then◌else◌, trim, any,
}
use smart_form.Base.Exec.{
  Exec, pure, throw, gets, put_state, ◌>>=◌, ◌>>◌, require, try_finally, Part, zoom,
}
use smart_form.Contracts.Artifact.{Failure, error}
use smart_form.Contracts.Task.{Scalar, TaskDefinition, is_write}
use smart_form.Contracts.Program.{
  CapabilityStep, CapabilityValue, literal, input, ExtractField, FieldRead, navigate, click, fill,
  select, press, wait_for, extract, submit,
}
use smart_form.Runner.{
  Page, Run, Call, SnapshotValue, SubmissionApprovalRequest, is_url_allowed, is_commit_selector,
  went, clicked, filled, selected, pressed, waited, counted, read_from, asked, approved, own,
  inherited, missing,
}

abbrev pub M : Type 0 → Type 0 → Type 0
M W A = Exec Failure (Run W) A

abbrev world_part : {W : Type 0} → Part (Run W) W
world_part = record { get = λ s. s.world; set = λ w s. record s { world = w } }

-- `String(value)`.
abbrev pub scalar_text : Scalar → String
scalar_text (Scalar.text t) = t
scalar_text (Scalar.number t) = t
scalar_text (Scalar.flag true) = "true"
scalar_text (Scalar.flag false) = "false"
scalar_text Scalar.null = "null"

abbrev pub input_text : Scalar → String
input_text Scalar.null = ""
input_text v = scalar_text v

unfoldable pub lookup : {A : Type 0} → String → List (String × A) → Option A
lookup key [] = none
lookup key ((k, v) ∷ rest) = if k == key then some v else lookup key rest

abbrev native_code : String → String
native_code name = text_concat "function " (text_concat name "() { [native code] }")

abbrev methods : List String
methods =
    "__defineGetter__" ∷ "__defineSetter__" ∷ "hasOwnProperty" ∷ "__lookupGetter__"
    ∷ "__lookupSetter__" ∷ "isPrototypeOf" ∷ "propertyIsEnumerable" ∷ "toString" ∷ "valueOf"
    ∷ "toLocaleString" ∷ []

-- What an object inherits from `Object.prototype`, as a text.
unfoldable pub inherited_text : String → Option String
inherited_text key =
    if key == "constructor"
    then some (native_code "Object")
    else if key == "__proto__"
    then some "[object Object]"
    else if any (λ m. m == key) methods
    then some (native_code key)
    else none

abbrev pub missing_input : {S : Type 0} → String → Option String → Exec Failure S String
missing_input key none = throw (error (text_concat "Capability input is missing: " key))
missing_input key (some t) = pure t

abbrev pub input_value : {S : Type 0} → String → Option Scalar → Exec Failure S String
input_value key none = missing_input key (inherited_text key)
input_value key (some v) = pure (input_text v)

-- `key in values` also finds the names that every object inherits.
abbrev pub input_of :
    {S : Type 0} → String → Option (List (String × Scalar)) → Exec Failure S String
input_of key none = throw (error (text_concat "Capability input is missing: " key))
input_of key (some values) = input_value key (lookup key values)

unfoldable pub resolve_value :
    {S : Type 0} → CapabilityValue → TaskDefinition → Exec Failure S String
unfolding lookup inherited_text
resolve_value (literal v) task = pure (scalar_text v)
resolve_value (input key) task = input_of key task.input

abbrev snapshot_rest : Option String → SnapshotValue
snapshot_rest none = missing
snapshot_rest (some t) = inherited

abbrev snapshot_value : String → Option Scalar → SnapshotValue
snapshot_value key none = snapshot_rest (inherited_text key)
snapshot_value key (some v) = own v

abbrev values_of : Option (List (String × Scalar)) → List (String × Scalar)
values_of none = []
values_of (some values) = values

-- `Object.fromEntries`: a key that comes twice has its first place.
unfoldable pub with_value : {A : Type 0} → String → A → List (String × A) → List (String × A)
with_value key v [] = (key, v) ∷ []
with_value key v ((k, o) ∷ rest) =
    if k == key then (k, v) ∷ rest else (k, o) ∷ with_value key v rest

abbrev snapshot_from :
    List (String × Scalar)
    → List String
    → List (String × SnapshotValue)
    → List (String × SnapshotValue)
snapshot_from values [] acc = acc
snapshot_from values (key ∷ keys) acc =
    snapshot_from values keys (with_value key (snapshot_value key (lookup key values)) acc)

unfoldable pub snapshot : TaskDefinition → List String → List (String × SnapshotValue)
unfolding lookup with_value inherited_text
snapshot task keys = snapshot_from (values_of task.input) keys []

module _ {W : Type 0} (page : Page W) where
  -- A call of the host, noted.
  abbrev pub call : {A : Type 0} → Call → Exec Failure W A → M W A
  call c m = do put_state (λ s. record s { calls = c ∷ s.calls }); zoom world_part m

  abbrev pub host : {A : Type 0} → Exec Failure W A → M W A
  host m = zoom world_part m

  abbrev pub trimmed : Option String → Option String
  trimmed none = none
  trimmed (some t) = some (trim t)

  abbrev pub read_attribute :
      Option (String × ℕ) → ExtractField → Option String → M W (Option String)
  read_attribute root field none =
      throw (error (text_concat "Extract field " (text_concat field.name " requires an attribute")))
  read_attribute root field (some a) =
      if a == ""
      then throw
          (error (text_concat "Extract field " (text_concat field.name " requires an attribute")))
      else call (read_from field.selector) (page.get_attribute root field.selector a)

  unfoldable pub read_field : Option (String × ℕ) → ExtractField → FieldRead → M W (Option String)
  read_field root field FieldRead.attribute = read_attribute root field field.attribute_name
  read_field root field FieldRead.value = do
    v ← call (read_from field.selector) (page.input_value root field.selector)
    pure (some v)
  read_field root field FieldRead.text = do
    t ← call (read_from field.selector) (page.text_content root field.selector)
    pure (trimmed t)

  -- `record[name] = value`; a primitive that is assigned to `__proto__` leaves no property.
  unfoldable pub with_field :
      String → Option String → List (String × Option String) → List (String × Option String)
  unfolding with_value
  with_field name v row = if name == "__proto__" then row else with_value name v row

  unfoldable pub read_fields :
      Option (String × ℕ)
      → List ExtractField
      → List (String × Option String)
      → M W (List (String × Option String))
  unfolding read_field with_field
  read_fields root [] row = pure row
  read_fields root (field ∷ fields) row = do
    v ← read_field root field field.read
    read_fields root fields (with_field field.name v row)

  abbrev pub member : Option String → ℕ → Option (String × ℕ)
  member none index = none
  member (some collection) index = some (collection, index)

  -- `left` rows are still to be read, from `index` on.
  unfoldable pub read_rows : Option String → List ExtractField → ℕ → ℕ → M W Unit
  unfolding read_fields
  read_rows collection fields index ℕ.zero = pure tt
  read_rows collection fields index (suc left) = do
    row ← read_fields (member collection index) fields []
    put_state (λ s. record s { data_rows = s.data_rows ++ row ∷ [] })
    read_rows collection fields (suc index) left

  unfoldable pub row_count : Option String → ℕ → M W ℕ
  row_count none max_records = pure 1
  row_count (some collection) max_records = do
    n ← call (counted collection) (page.count collection)
    pure (min n max_records)

  unfoldable pub inside_domains : TaskDefinition → Failure → M W Unit
  inside_domains task e = do
    url ← gets (λ s. page.url s.world)
    require (is_url_allowed page.urls url task.site.allowed_domains) e

  abbrev pub request_for :
      TaskDefinition → String → List String → String → String → SubmissionApprovalRequest
  request_for task selector keys id url = record {
    submission_id = id;
    task_id = task.id;
    target_url = url;
    selector = selector;
    form_data_snapshot = snapshot task keys;
  }

  -- What follows the gate's answer.
  unfoldable pub answered : TaskDefinition → SubmissionApprovalRequest → Bool → M W Unit
  unfolding inside_domains
  answered task r false = throw (error (text_concat "Submission was rejected: " r.submission_id))
  answered task r true = do
    put_state (λ s. record s { calls = approved r ∷ s.calls })
    inside_domains task (error "Submission page changed outside the allowed domains")
    call (clicked r.selector) (page.click r.selector)
    put_state (λ s. record s { submissions = s.submissions ++ r.submission_id ∷ [] })

  unfoldable pub submit_request : TaskDefinition → SubmissionApprovalRequest → M W Unit
  unfolding answered
  submit_request task r = do
    answer ← call (asked r) (page.request_approval r)
    answered task r answer

  unfoldable pub submit_form : TaskDefinition → String → List String → M W Unit
  submit_form task selector keys = do
    require (is_write task.mode) (error "Read tasks cannot submit")
    id ← host page.uuid
    url ← gets (λ s. page.url s.world)
    submit_request task (request_for task selector keys id url)

  -- The `switch` on the step.
  unfoldable pub perform : TaskDefinition → CapabilityStep → M W Unit
  perform task (navigate url) = do
    require (is_url_allowed page.urls url task.site.allowed_domains)
        (error (text_concat "Capability navigation is outside the allowed domains: " url))
    call (went url) (page.goto url)
  perform task (click selector) = do
    require (not (is_commit_selector selector))
        (error "Commit-like selectors require the submit approval primitive")
    call (clicked selector) (page.click selector)
  perform task (fill selector v) = do
    t ← resolve_value v task
    call (filled selector t) (page.fill selector t)
  perform task (select selector v) = do
    t ← resolve_value v task
    call (selected selector t) (page.select_option selector t)
  perform task (press selector key) = call (pressed selector key) (page.press selector key)
  perform task (wait_for selector state) = call (waited selector) (page.wait_for selector state)
  perform task (extract collection max_records fields) = do
    n ← row_count collection max_records
    read_rows collection fields 0 n
  perform task (submit selector keys) = submit_form task selector keys

  -- The body of the `try` of a turn of the loop.
  unfoldable pub guarded : TaskDefinition → CapabilityStep → M W Unit
  guarded task step = do
    inside_domains task (error "Capability cannot continue outside the allowed domains")
    perform task step

  unfoldable pub run_step : TaskDefinition → CapabilityStep → ℕ → M W Unit
  run_step task step index = do
    host (page.before_step step index)
    try_finally (guarded task step) (host (page.after_step step index))

  unfoldable pub run_program : TaskDefinition → List CapabilityStep → ℕ → M W Unit
  run_program task [] index = pure tt
  run_program task (step ∷ steps) index = do
    run_step task step index
    run_program task steps (suc index)

abbrev pub starting : {W : Type 0} → W → Run W
starting w = record { data_rows = []; submissions = []; calls = []; world = w }
