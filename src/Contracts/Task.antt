-- ===== src/Contracts/Task.antt =====
-- packages/contracts/src/task.ts. Dates are kept as the texts that travel.
use smart_form.Base.{
  String, Bool, true, false, not, ◌&&◌, Option, List, [], ◌∷◌, ◌++◌, ℕ, if◌then◌else◌, is_some,
}

pub data TaskMode : Type 0 where
  read write : TaskMode

pub TaskMode-discrete : Discrete TaskMode
TaskMode-discrete = hlevel

abbrev pub is_write : TaskMode → Bool
is_write read = false
is_write write = true

pub data TaskType : Type 0 where
  collect fill : TaskType

abbrev pub same_type : TaskType → TaskType → Bool
same_type collect collect = true
same_type fill fill = true
same_type _ _ = false

abbrev pub same_mode : TaskMode → TaskMode → Bool
same_mode read read = true
same_mode write write = true
same_mode _ _ = false

-- A value of `input.values`; a number is held as the text that `String` prints it as.
pub data Scalar : Type 0 where
  text number : String → Scalar
  flag : Bool → Scalar
  null : Scalar

pub data FieldType : Type 0 where
  string number decimal date boolean enum url image : FieldType

pub record FieldDefinition : Type 0 where
  pub name : String
  pub label : String
  pub field_type : FieldType
  pub required : Bool
  pub enum_values : Option (List String)
  pub description : Option String

pub record TaskBudget : Type 0 where
  pub max_steps : ℕ
  pub step_timeout_ms : ℕ
  pub total_timeout_ms : ℕ
  -- Not an integer: the text that it prints as.
  pub max_cost_usd : String

pub record TaskSite : Type 0 where
  pub entry_url : String
  pub allowed_domains : List String
  pub module_hint : Option String

pub data DateRange : Type 0 where
  relative absolute : String → DateRange

pub record TaskScope : Type 0 where
  pub date_range : Option DateRange
  pub max_records : Option ℕ

pub data PaginationMode : Type 0 where
  auto manual : PaginationMode

pub record Pagination : Type 0 where
  pub mode : PaginationMode
  pub max_pages : Option ℕ

pub data OutputFormat : Type 0 where
  jsonl csv xlsx : OutputFormat

pub data OutputDestination : Type 0 where
  local server : OutputDestination

pub record TaskOutput : Type 0 where
  pub format : OutputFormat
  pub destination : OutputDestination

pub record TaskDefinition : Type 0 where
  pub id : String
  pub tenant_id : String
  pub workspace_id : String
  pub title : String
  pub description : String
  pub task_type : TaskType
  pub mode : TaskMode
  pub site : TaskSite
  pub entity : String
  pub fields : List FieldDefinition
  pub scope : Option TaskScope
  pub pagination : Option Pagination
  pub output : TaskOutput
  pub input : Option (List (String × Scalar))
  pub budget : TaskBudget
  pub created_at : String
  pub updated_at : String

pub data TaskIssue : Type 0 where
  task_type_mismatch missing_input : TaskIssue

abbrev pub expected_type : TaskMode → TaskType
expected_type read = collect
expected_type write = fill

-- The issues that `superRefine` adds.
unfoldable pub task_issues : TaskDefinition → List TaskIssue
task_issues t =
    (if same_type t.task_type (expected_type t.mode) then [] else task_type_mismatch ∷ [])
    ++ (if is_write t.mode && not (is_some t.input) then missing_input ∷ [] else [])
