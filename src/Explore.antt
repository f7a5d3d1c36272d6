-- ===== src/Explore.antt =====
-- packages/explore-core/src: trace.ts, normalizer.ts, locator.ts, fill-compiler.ts and compiler.ts.
-- Each function returns what the code's returns; the normaliser also writes the merged value into the
-- step object that it shares with its argument, which no function here reads again.
pub mod Normalized
pub mod Secrets
mod Tests
use smart_form.Base.{
  ℕ, String, Bool, true, false, not, ◌&&◌, ◌||◌, Option, none, some, List, [], ◌∷◌, ◌++◌, ◌==◌,
  includes, text_concat, truthy, opt_eq, if◌then◌else◌,
}
use smart_form.Base.Exec.{Exec, pure, throw, ◌>>=◌, ◌>>◌}
use smart_form.Contracts.Artifact.{Failure, error}
use smart_form.Contracts.Task.{Scalar}
use smart_form.Contracts.Program.{CapabilityStep, CapabilityValue, literal, input}
use smart_form.Contracts.Program

pub record ActionTarget : Type 0 where
  pub role : Option String
  pub label : Option String
  pub text : Option String
  pub test_id : Option String
  pub selector : Option String

pub data ActionType : Type 0 where
  navigate click fill select extract human_secret_input commit submit : ActionType

-- `confidence`, a number between 0 and 1, is the text that it prints as.
pub record TraceStep : Type 0 where
  pub step_id : String
  pub action_type : ActionType
  pub target : Option ActionTarget
  pub value : Option String
  pub url : Option String
  pub field_id : Option String
  pub confidence : String
  pub timestamp : ℕ

pub record ActionTrace : Type 0 where
  pub trace_version : String
  pub task_id : String
  pub target_url : String
  pub steps : List TraceStep
  pub created_at : ℕ

abbrev label_of : Option ActionTarget → Option String
label_of none = none
label_of (some t) = t.label

abbrev selector_of : Option ActionTarget → Option String
selector_of none = none
selector_of (some t) = t.selector

abbrev label_includes : Option String → String → Bool
label_includes none part = false
label_includes (some label) part = includes label part

-- The label names a password or a verification code.
unfoldable pub is_secret : TraceStep → Bool
is_secret s = label_includes (label_of s.target) "密码" || label_includes (label_of s.target) "验证码"

abbrev pub is_fill : ActionType → Bool
is_fill fill = true
is_fill _ = false

abbrev pub redacted : TraceStep → TraceStep
redacted s = record s { action_type = human_secret_input; value = some "[REDACTED_SECRET]" }

-- Both fill the same field.
abbrev pub continues : TraceStep → TraceStep → Bool
continues last current =
    is_fill last.action_type
    && is_fill current.action_type
    && opt_eq (selector_of last.target) (selector_of current.target)

-- The push of a step that is not secret onto `cleanSteps`, whose last step comes first here.
unfoldable pub push_step : List TraceStep → TraceStep → List TraceStep
push_step [] current = current ∷ []
push_step (last ∷ clean) current =
    if continues last current
    then record last { value = current.value } ∷ clean
    else current ∷ last ∷ clean

unfoldable pub add_step : List TraceStep → TraceStep → List TraceStep
unfolding push_step
add_step clean current =
    if is_secret current then redacted current ∷ clean else push_step clean current

unfoldable pub add_steps : List TraceStep → List TraceStep → List TraceStep
unfolding add_step
add_steps clean [] = clean
add_steps clean (current ∷ rest) = add_steps (add_step clean current) rest

unfoldable pub reversed_onto : List TraceStep → List TraceStep → List TraceStep
reversed_onto acc [] = acc
reversed_onto acc (s ∷ rest) = reversed_onto (s ∷ acc) rest

-- `TraceNormalizer.normalize`.
unfoldable pub normalize : ActionTrace → ActionTrace
unfolding add_steps reversed_onto
normalize t = record t { steps = reversed_onto [] (add_steps [] t.steps) }

abbrev quoted : String → String → String → String
quoted before s after = text_concat before (text_concat s after)

abbrev or_empty : Option String → String
or_empty none = ""
or_empty (some s) = s

abbrev locator_of : ActionTarget → String
locator_of t =
    if truthy t.role && truthy t.label
    then quoted "page.getByRole('" (or_empty t.role)
        (quoted "', { name: '" (or_empty t.label) "' })")
    else if truthy t.label
    then quoted "page.getByLabel('" (or_empty t.label) "')"
    else if truthy t.test_id
    then quoted "page.getByTestId('" (or_empty t.test_id) "')"
    else if truthy t.text
    then quoted "page.getByText('" (or_empty t.text) "')"
    else if truthy t.selector
    then quoted "page.locator('" (or_empty t.selector) "')"
    else "page.locator('body')"

-- `LocatorGenerator.generatePlaywrightLocator`.
unfoldable pub generate_playwright_locator : Option ActionTarget → String
generate_playwright_locator none = "page.locator('body')"
generate_playwright_locator (some t) = locator_of t

abbrev or_else : Option String → String → String
or_else o d = if truthy o then or_empty o else d

abbrev navigate_line : Option String → List String
navigate_line url =
    if truthy url then quoted "  await page.goto('" (or_empty url) "');" ∷ [] else []

-- The lines that `compileToTypeScript` adds for a step.
unfoldable pub step_lines : TraceStep → ActionType → List String
unfolding generate_playwright_locator
step_lines s navigate = navigate_line s.url
step_lines s click = quoted "  await " (generate_playwright_locator s.target) ".click();" ∷ []
step_lines s fill =
    quoted "  await " (generate_playwright_locator s.target)
      (quoted ".fill('" (or_else s.value "") "');")
    ∷ []
step_lines s human_secret_input =
    text_concat "  // HUMAN_INTERVENTION_REQUIRED: Sensitive input for "
      (or_else (label_of s.target) "secret")
    ∷ "  await page.pause();"
    ∷ []
step_lines s extract =
    quoted "  const extractedVal = await " (generate_playwright_locator s.target) ".text_content();"
    ∷ quoted "  results.push({ field: '" (or_else s.field_id "data") "', value: extractedVal });"
    ∷ []
step_lines s _ = []

abbrev all_step_lines : List TraceStep → List String
all_step_lines [] = []
all_step_lines (s ∷ rest) = step_lines s s.action_type ++ all_step_lines rest

-- The lines of `PlaywrightCompiler.compileToTypeScript`, which joins them. `iso_text` is the date of
-- the trace as the language prints it.
unfoldable pub compile_lines : String → ActionTrace → List String
unfolding step_lines
compile_lines iso_text t =
    "// Auto-generated Playwright Collector Script"
      ∷ text_concat "// Task ID: " t.task_id
      ∷ text_concat "// Created At: " iso_text
      ∷ ""
      ∷ "import { Page } from 'playwright';"
      ∷ ""
      ∷ "export async function runCollector(page: Page): Promise<Record<string, any>[]> {"
      ∷ "  const results: Record<string, any>[] = [];"
      ∷ quoted "  await page.goto('" t.target_url "', { waitUntil: 'domcontentloaded' });"
      ∷ ""
      ∷ all_step_lines t.steps
    ++ ("" ∷ "  return results;" ∷ "}" ∷ [])

abbrev no_selector : TraceStep → Failure
no_selector s =
    error (quoted "Trace step " s.step_id " cannot be compiled without a stable selector")

abbrev stable : {S : Type 0} → TraceStep → Option String → Exec Failure S String
stable s none = throw (no_selector s)
stable s (some selector) = if selector == "" then throw (no_selector s) else pure selector

unfoldable pub selector_for : {S : Type 0} → TraceStep → Exec Failure S String
selector_for s = stable s (selector_of s.target)

abbrev value_for : TraceStep → CapabilityValue
value_for s =
    if truthy s.field_id
    then input (or_empty s.field_id)
    else literal (Scalar.text (or_empty s.value))

abbrev no_url : TraceStep → Failure
no_url s = error (quoted "Navigate step " s.step_id " is missing a URL")

abbrev navigation : {S : Type 0} → TraceStep → Option String → Exec Failure S CapabilityStep
navigation s none = throw (no_url s)
navigation s (some url) = if url == "" then throw (no_url s) else pure (Program.navigate url)

abbrev submission : {S : Type 0} → TraceStep → Exec Failure S CapabilityStep
submission s = do
  selector ← selector_for s
  pure (Program.submit selector (if truthy s.field_id then or_empty s.field_id ∷ [] else []))

-- The step that `compileToProgram` makes of one step of the trace.
unfoldable pub compile_step : {S : Type 0} → TraceStep → ActionType → Exec Failure S CapabilityStep
unfolding selector_for
compile_step s navigate = navigation s s.url
compile_step s click = do selector ← selector_for s; pure (Program.click selector)
compile_step s fill = do selector ← selector_for s; pure (Program.fill selector (value_for s))
compile_step s select = do selector ← selector_for s; pure (Program.select selector (value_for s))
compile_step s commit = submission s
compile_step s submit = submission s
compile_step s human_secret_input = throw (
    error (
      quoted "Trace step " s.step_id
        " requires human input and cannot be compiled into a capability"))
compile_step s extract = throw (
    error (
      quoted "Trace step " s.step_id
        " lacks an extraction schema and cannot be compiled automatically"))

-- `DeclarativeFillCompiler.compileToProgram`.
unfoldable pub compile_steps : {S : Type 0} → List TraceStep → Exec Failure S (List CapabilityStep)
unfolding compile_step
compile_steps [] = pure []
compile_steps (s ∷ rest) = do
  step ← compile_step s s.action_type
  steps ← compile_steps rest
  pure (step ∷ steps)

abbrev pub compile_to_program : {S : Type 0} → ActionTrace → Exec Failure S (List CapabilityStep)
compile_to_program t = compile_steps t.steps
