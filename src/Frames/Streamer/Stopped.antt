-- ===== src/Frames/Streamer/Stopped.antt =====
-- What a streamer still sends when it was stopped.
use smart_form.Base.{ℕ, ◌+◌, ◌≤◌, Bool, true, false, ◌≡◌, length}
use smart_form.Frames.Streamer.{ScreencastStreamer, Event, started}

-- The frames that were sent and those of the screenshots that are awaited.
abbrev pub budget : ScreencastStreamer → ℕ
budget s = length s.sent + length s.in_flight

-- A stopped streamer that may send no more than the number.
record IsStopped (n : ℕ) (s : ScreencastStreamer) : Type 0 where
  streaming : s.is_streaming ≡ false
  spends : budget s ≤ n

abbrev pub is_start : Event → Bool
is_start started = true
is_start e = false
