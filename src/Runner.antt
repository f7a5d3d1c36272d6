-- ===== src/Runner.antt =====
-- packages/playwright-runner/src: domain-policy.ts and program-runner.ts. The page, the approval gate
-- and the hooks are the host's; `W` is what the host keeps. `calls` notes what was asked of the page
-- and of the gate, the last first; the code keeps no such list and never reads it.
pub mod Steps
pub mod Keeps
pub mod Approval
pub mod Reads
pub mod Tests
use smart_form.Base.{
  ℕ, String, Bool, true, false, Option, none, some, List, [], ◌∷◌, ◌==◌, includes, text_concat,
  ◌||◌, matches_word, any, if◌then◌else◌,
}
use smart_form.Base.Exec.{Exec}
use smart_form.Contracts.Artifact.{Failure}
use smart_form.Contracts.Task.{Scalar}
use smart_form.Contracts.Program.{CapabilityStep, WaitState}
use smart_form.Lease.{Urls}

abbrev pub lowered : Urls → Option String → Option String
lowered urls none = none
lowered urls (some h) = some (urls.lower h)

abbrev pub hostname : Urls → String → Option String
hostname urls url = lowered urls (urls.hostname url)

-- `normalizeHostname`, `none` where it throws.
unfoldable pub normalize_hostname : Urls → String → Option String
normalize_hostname urls value =
    if includes value "://"
    then hostname urls value
    else hostname urls (text_concat "https://" value)

abbrev pub same_host : Option String → String → Bool
same_host none h = false
same_host (some c) h = c == h

abbrev pub in_domains : Urls → List String → Option String → Bool
in_domains urls domains none = false
in_domains urls domains (some h) =
    any (λ domain. same_host (normalize_hostname urls domain) h) domains

-- A URL or a domain that does not parse is not allowed.
unfoldable pub is_url_allowed : Urls → String → List String → Bool
unfolding normalize_hostname
is_url_allowed urls url domains = in_domains urls domains (hostname urls url)

-- `COMMIT_SELECTOR.test`.
unfoldable pub is_commit_selector : String → Bool
is_commit_selector selector = any (matches_word selector) (
    "submit" ∷ "confirm" ∷ "approve" ∷ "save" ∷ "send" ∷ "pay" ∷ "提交" ∷ "确认" ∷ "保存" ∷ "发送" ∷ "支付"
    ∷ [])

-- A value of the snapshot: an own property of the values, a name that every object inherits, or
-- nothing.
pub data SnapshotValue : Type 0 where
  own : Scalar → SnapshotValue
  inherited missing : SnapshotValue

pub record SubmissionApprovalRequest : Type 0 where
  pub submission_id : String
  pub task_id : String
  pub target_url : String
  pub selector : String
  pub form_data_snapshot : List (String × SnapshotValue)

pub data Call : Type 0 where
  went : String → Call
  clicked : String → Call
  filled selected pressed : String → String → Call
  waited : String → Call
  counted read_from : String → Call
  asked : SubmissionApprovalRequest → Call
  -- The gate has agreed.
  approved : SubmissionApprovalRequest → Call

pub record Page (W : Type 0) : Type 0 where
  pub urls : Urls
  pub url : W → String
  pub goto : String → Exec Failure W Unit
  pub click : String → Exec Failure W Unit
  pub fill : String → String → Exec Failure W Unit
  pub select_option : String → String → Exec Failure W Unit
  pub press : String → String → Exec Failure W Unit
  pub wait_for : String → WaitState → Exec Failure W Unit
  pub count : String → Exec Failure W ℕ
  -- A locator of the page, or of the member of a collection, and then the first match in it.
  pub text_content : Option (String × ℕ) → String → Exec Failure W (Option String)
  pub input_value : Option (String × ℕ) → String → Exec Failure W String
  pub get_attribute : Option (String × ℕ) → String → String → Exec Failure W (Option String)
  pub request_approval : SubmissionApprovalRequest → Exec Failure W Bool
  pub before_step : CapabilityStep → ℕ → Exec Failure W Unit
  pub after_step : CapabilityStep → ℕ → Exec Failure W Unit
  pub uuid : Exec Failure W String

pub record Run (W : Type 0) : Type 0 where
  pub data_rows : List (List (String × Option String))
  pub submissions : List String
  pub calls : List Call
  pub world : W
