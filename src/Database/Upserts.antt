-- ===== src/Database/Upserts.antt =====
-- The tables that are written by `ON CONFLICT DO UPDATE`.
use smart_form.Base.{
  ◌≤◌, String, ◌≡◌, refl, some, arith, ◌==◌, eq_iff, if◌then◌else◌, inl, inr, Bool-cases,
  Option-cases,
}
use smart_form.Database.{
  TaskCheckpointRecord, CommandReceiptRecord, LocalTaskRecord, Tables, save_checkpoint,
  get_checkpoint, save_command_receipt, get_command_receipt, save_task, get_task, merge_checkpoint,
  merge_task, merge_receipt,
}
use smart_form.Database.Table.{merged, select-upsert, key-select}

-- Saving a checkpoint changes the row of its task alone.
pub get_checkpoint-save :
    (c : TaskCheckpointRecord) (k : String) (db : Tables)
    → get_checkpoint k (save_checkpoint c db) ≡ (
        if c.task_id == k
        then some (merged (λ r. r.task_id) merge_checkpoint (get_checkpoint c.task_id db) c)
        else get_checkpoint k db)
unfolding get_checkpoint save_checkpoint
get_checkpoint-save c k db =
    select-upsert (λ r. r.task_id) merge_checkpoint (λ o r. ground arith) c k db.checkpoints

-- Saving a receipt changes the receipt of its command alone, and keeps the task of a receipt that was
-- there.
pub get_command_receipt-save :
    (r : CommandReceiptRecord) (k : String) (db : Tables)
    → get_command_receipt k (save_command_receipt r db) ≡ (
        if r.command_id == k
        then some (merged (λ x. x.command_id) merge_receipt (get_command_receipt r.command_id db) r)
        else get_command_receipt k db)
unfolding get_command_receipt save_command_receipt
get_command_receipt-save r k db =
    select-upsert (λ x. x.command_id) merge_receipt (λ o n. refl) r k db.command_receipts

-- Saving a task changes the row of that task alone, and keeps the time of creation of a row that was
-- there.
pub get_task-save :
    (t : LocalTaskRecord) (k : String) (db : Tables)
    → get_task k (save_task t db) ≡ (
        if t.id == k
        then some (merged (λ x. x.id) merge_task (get_task t.id db) t)
        else get_task k db)
unfolding get_task save_task
get_task-save t k db = select-upsert (λ x. x.id) merge_task (λ o n. refl) t k db.local_tasks

-- Whatever is saved, the checkpoint of a task never goes back to a smaller sequence number.
pub checkpoint_monotone :
    (c old : TaskCheckpointRecord) (k : String) (db : Tables)
    → get_checkpoint k db ≡ some old
    → (new : TaskCheckpointRecord) × (get_checkpoint k (save_checkpoint c db) ≡ some new)
      × (old.sequence ≤ new.sequence)
checkpoint_monotone c old k db e = elim (Bool-cases (c.task_id == k)) [
  | inl same ↦
      let k' : c.task_id ≡ k = (eq_iff c.task_id k).0 same in
      (
        merge_checkpoint old c,
        rw (get_checkpoint-save c k db) (rw same (rw k' (rw e refl))),
        ground arith,
      )
  | inr other ↦ (old, rw (get_checkpoint-save c k db) (rw other e), omega arith)
]

checkpoint-key :
    (k : String) (db : Tables) (old : TaskCheckpointRecord)
    → get_checkpoint k db ≡ some old
    → old.task_id ≡ k
unfolding get_checkpoint
checkpoint-key k db old e = key-select (λ r. r.task_id) k db.checkpoints old e

-- A checkpoint that is not older than the stored one is what a later read returns, and a read of
-- another task returns what it did.
pub checkpoint_roundtrip :
    (c : TaskCheckpointRecord) (k : String) (db : Tables)
    → ((old : TaskCheckpointRecord)
        → get_checkpoint c.task_id db ≡ some old
        → old.sequence ≤ c.sequence)
    → get_checkpoint k (save_checkpoint c db)
      ≡ (if c.task_id == k then some c else get_checkpoint k db)
checkpoint_roundtrip c k db newer = elim (Option-cases (get_checkpoint c.task_id db)) [
  | inl absent ↦ rw (get_checkpoint-save c k db) (rw absent refl)
  | inr (old, found) ↦
      let stored : merge_checkpoint old c ≡ c =
        ground (arith, newer old found, checkpoint-key c.task_id db old found) in
      rw (get_checkpoint-save c k db) (rw found (rw stored refl))
]
