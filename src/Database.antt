-- ===== src/Database.antt =====
-- apps/desktop/src/main/db.ts: the tables, and the methods of `LocalDatabaseManager` as functions on
-- them. Writing the file after each change, `persist`, is the caller's.
pub mod Table
pub mod Outbox
pub mod Upserts
mod Tests
use smart_form.Base.{
  ℕ, suc, ◌+◌, String, Bool, true, false, ◌&&◌, ◌||◌, Option, none, some, List, [], ◌∷◌, ◌++◌, ◌==◌,
  if◌then◌else◌, leb, ltb, nat_eq, any, min,
}
use smart_form.Base.Exec.{Exec, pure, throw, gets, put_state, ◌>>=◌, ◌>>◌, require}
use smart_form.Contracts.Json.{Payload}
use smart_form.Contracts.Task.{TaskMode}
use smart_form.Contracts.Artifact.{Failure, error}
use smart_form.Lease.{BrowserProbe}
use Table
use Table.{select, upsert, insert_or_ignore, delete}

pub record LocalTaskRecord : Type 0 where
  pub id : String
  pub title : String
  pub mode : TaskMode
  pub status : String
  pub target_url : String
  pub context : Payload
  pub state_version : ℕ
  pub created_at : ℕ
  pub updated_at : ℕ

pub record TaskCheckpointRecord : Type 0 where
  pub task_id : String
  pub state : String
  pub context : Payload
  pub browser : BrowserProbe
  pub sequence : ℕ
  pub updated_at : ℕ

pub record OutboxRecord : Type 0 where
  pub report_id : String
  pub task_id : Option String
  pub sequence : ℕ
  pub payload : Payload
  pub created_at : ℕ

pub data ReceiptStatus : Type 0 where
  processing accepted rejected : ReceiptStatus

pub record CommandReceiptRecord : Type 0 where
  pub command_id : String
  pub task_id : String
  pub status : ReceiptStatus
  pub result : Payload
  pub updated_at : ℕ

pub record EventRow : Type 0 where
  pub event_id : String
  pub task_id : String
  pub sequence : ℕ
  pub event_type : String
  pub payload : Payload
  pub timestamp : ℕ

pub record Tables : Type 0 where
  pub local_tasks : List LocalTaskRecord
  pub task_events : List EventRow
  pub checkpoints : List TaskCheckpointRecord
  pub outbox : List OutboxRecord
  pub command_receipts : List CommandReceiptRecord

pub empty : Tables
empty = record {
  local_tasks = [];
  task_events = [];
  checkpoints = [];
  outbox = [];
  command_receipts = [];
}

-- The update leaves `created_at` as it was.
abbrev pub merge_task : LocalTaskRecord → LocalTaskRecord → LocalTaskRecord
merge_task old new = record new { id = old.id; created_at = old.created_at }

unfoldable pub save_task : LocalTaskRecord → Tables → Tables
unfolding upsert
save_task task db = record db { local_tasks = upsert (λ r. r.id) merge_task task db.local_tasks }

unfoldable pub get_task : String → Tables → Option LocalTaskRecord
unfolding select
get_task id db = select (λ r. r.id) id db.local_tasks

-- The primary key, and `UNIQUE(task_id, sequence)`.
abbrev clashes : EventRow → EventRow → Bool
clashes row old =
    old.event_id == row.event_id || (old.task_id == row.task_id && nat_eq old.sequence row.sequence)

unfoldable pub append_event : EventRow → Exec Failure Tables Unit
append_event row db =
    if any (clashes row) db.task_events
    then throw (error "UNIQUE constraint failed: task_events") db
    else (pure tt) (record db { task_events = db.task_events ++ row ∷ [] })

-- `WHERE excluded.sequence >= checkpoints.sequence`: an older checkpoint changes nothing.
abbrev pub merge_checkpoint : TaskCheckpointRecord → TaskCheckpointRecord → TaskCheckpointRecord
merge_checkpoint old new =
    if leb old.sequence new.sequence then record new { task_id = old.task_id } else old

unfoldable pub save_checkpoint : TaskCheckpointRecord → Tables → Tables
unfolding upsert
save_checkpoint checkpoint db = record db {
  checkpoints = upsert (λ r. r.task_id) merge_checkpoint checkpoint db.checkpoints;
}

unfoldable pub get_checkpoint : String → Tables → Option TaskCheckpointRecord
unfolding select
get_checkpoint task_id db = select (λ r. r.task_id) task_id db.checkpoints

unfoldable pub enqueue_report : OutboxRecord → Tables → Tables
unfolding insert_or_ignore
enqueue_report report db = record db {
  outbox = insert_or_ignore (λ r. r.report_id) report db.outbox;
}

-- `ORDER BY sequence ASC`; rows of one sequence stay in the order of their insertion.
unfoldable pub insert_sorted : OutboxRecord → List OutboxRecord → List OutboxRecord
insert_sorted r [] = r ∷ []
insert_sorted r (o ∷ os) =
    let rest = insert_sorted r os in if leb r.sequence o.sequence then r ∷ o ∷ os else o ∷ rest

unfoldable pub by_sequence : List OutboxRecord → List OutboxRecord
unfolding insert_sorted
by_sequence [] = []
by_sequence (r ∷ rs) = insert_sorted r (by_sequence rs)

unfoldable pub take : {A : Type 0} → ℕ → List A → List A
take ℕ.zero xs = []
take (suc n) [] = []
take (suc n) (x ∷ xs) = x ∷ take n xs

-- `Math.max(1, Math.min(limit, 1_000))`.
abbrev pub safe_limit : ℕ → ℕ
safe_limit limit = if leb (min limit 1000) 1 then 1 else min limit 1000

unfoldable pub list_outbox : ℕ → Tables → List OutboxRecord
unfolding by_sequence take
list_outbox limit db = take (safe_limit limit) (by_sequence db.outbox)

unfoldable pub acknowledge_report : String → Tables → Tables
unfolding delete
acknowledge_report report_id db = record db {
  outbox = delete (λ r. r.report_id) report_id db.outbox;
}

-- The update leaves `task_id` as it was.
abbrev pub merge_receipt : CommandReceiptRecord → CommandReceiptRecord → CommandReceiptRecord
merge_receipt old new = record new { command_id = old.command_id; task_id = old.task_id }

unfoldable pub save_command_receipt : CommandReceiptRecord → Tables → Tables
unfolding upsert
save_command_receipt receipt db = record db {
  command_receipts = upsert (λ r. r.command_id) merge_receipt receipt db.command_receipts;
}

unfoldable pub get_command_receipt : String → Tables → Option CommandReceiptRecord
unfolding select
get_command_receipt command_id db = select (λ r. r.command_id) command_id db.command_receipts
