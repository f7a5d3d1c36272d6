-- ===== src/Database/Tests.antt =====
-- Concrete rows of the desktop database.
use smart_form.Base.{ℕ, ◌≤◌, ◌≡◌, refl, none, some, []}
use smart_form.Lease.{BrowserProbe}
use smart_form.Database.{TaskCheckpointRecord, Tables, empty, save_checkpoint, get_checkpoint}
use smart_form.Database.Upserts.{checkpoint_monotone}

abbrev blank : BrowserProbe
blank = record { url = "about:blank"; title = none; fingerprint = none; active_target_id = none }

abbrev checkpoint : ℕ → TaskCheckpointRecord
checkpoint n = record {
  task_id = "t1";
  state = "RUNNING";
  context = [];
  browser = blank;
  sequence = n;
  updated_at = n;
}

abbrev saved : Tables
saved = save_checkpoint (checkpoint 5) empty

saved_found : get_checkpoint "t1" saved ≡ some (checkpoint 5)
unfolding get_checkpoint save_checkpoint empty
saved_found = refl

checkpoint_monotone_example :
    (new : TaskCheckpointRecord) × (get_checkpoint "t1" (save_checkpoint (checkpoint 3) saved)
      ≡ some new)
    × ((checkpoint 5).sequence ≤ new.sequence)
checkpoint_monotone_example =
    checkpoint_monotone (checkpoint 3) (checkpoint 5) "t1" saved saved_found
