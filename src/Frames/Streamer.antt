-- ===== src/Frames/Streamer.antt =====
-- `ScreencastStreamer`. The wait for a screenshot parts `captureAndSend` in two.
pub mod Sent
pub mod Stopped
use smart_form.Base.{
  ℕ, suc, ◌-◌, String, Bool, true, false, not, ◌||◌, Option, none, some, List, [], ◌∷◌, ◌++◌, ◌==◌,
  nat_eq, any, if◌then◌else◌, length,
}
use smart_form.Frames.{encode_binary_header}
use Prim.Native.Nat.{◌/◌}

-- A number of frames per second that is 0 is not set.
pub record StreamConfig : Type 0 where
  pub target_fps : ℕ
  pub idle_fps : ℕ

-- What a streamer is created for and what it uses: its task's id in UTF-8 and the hash of an image.
pub record Setup : Type 0 where
  pub task_id_bytes : List ℕ
  pub config : StreamConfig
  pub hash : List ℕ → String

pub record Timer : Type 0 where
  pub timer_id : ℕ
  pub delay_ms : ℕ

-- What was given to `sendFrame`, with the number, the time and the image that it was made of.
pub record Frame : Type 0 where
  pub seq : ℕ
  pub timestamp_ms : ℕ
  pub image : List ℕ
  pub packet : List ℕ

-- `pending` are the timers that run, `in_flight` the times at which the screenshots that are awaited
-- were begun, `sent` the frames from the newest to the oldest.
pub record ScreencastStreamer : Type 0 where
  pub is_streaming : Bool
  pub timer : Option ℕ
  pub frame_seq : ℕ
  pub last_image_hash : String
  pub pending : List Timer
  pub next_timer : ℕ
  pub in_flight : List ℕ
  pub sent : List Frame

abbrev pub new_streamer : ScreencastStreamer
new_streamer = record {
  is_streaming = false;
  timer = none;
  frame_seq = 0;
  last_image_hash = "";
  pending = [];
  next_timer = 0;
  in_flight = [];
  sent = [];
}

unfoldable pub schedule_next_frame : ℕ → ScreencastStreamer → ScreencastStreamer
schedule_next_frame delay s = if not s.is_streaming then s else record s {
  timer = some s.next_timer;
  pending = s.pending ++ record { timer_id = s.next_timer; delay_ms = delay } ∷ [];
  next_timer = suc s.next_timer;
}

unfoldable pub start : ScreencastStreamer → ScreencastStreamer
unfolding schedule_next_frame
start s = if s.is_streaming then s else schedule_next_frame 100 (record s { is_streaming = true })

abbrev without : ℕ → List Timer → List Timer
without id [] = []
without id (t ∷ ts) = let rest = without id ts in if nat_eq t.timer_id id then rest else t ∷ rest

-- `if (this.timer) clearTimeout(this.timer)`.
abbrev clear_timer : Option ℕ → ScreencastStreamer → ScreencastStreamer
clear_timer none s = s
clear_timer (some id) s = record s { timer = none; pending = without id s.pending }

unfoldable pub stop : ScreencastStreamer → ScreencastStreamer
stop s = clear_timer s.timer (record s { is_streaming = false })

-- `captureAndSend` before the screenshot is there, at the time `now`.
unfoldable pub capture : Bool → ℕ → ScreencastStreamer → ScreencastStreamer
unfolding schedule_next_frame
capture available now s =
    if not s.is_streaming || not available
    then schedule_next_frame 1000 s
    else record s { in_flight = now ∷ s.in_flight }

abbrev or_default : ℕ → ℕ → ℕ
or_default n fallback = if nat_eq n 0 then fallback else n

-- `setTimeout` takes the delay without its fraction.
abbrev interval_ms : StreamConfig → Bool → ℕ
interval_ms c is_changed =
    if is_changed then 1000 / or_default c.target_fps 5 else 1000 / or_default c.idle_fps 1

abbrev pub send : ℕ → List ℕ → ℕ → Option (List ℕ) → ScreencastStreamer → ScreencastStreamer
send t_start image delay none s = schedule_next_frame 1000 s
send t_start image delay (some header) s = schedule_next_frame delay (record s {
  sent =
      record { seq = s.frame_seq; timestamp_ms = t_start; image = image; packet = header ++ image }
      ∷ s.sent;
})

abbrev pub number : ScreencastStreamer → ScreencastStreamer
number s = record s { frame_seq = suc s.frame_seq }

-- `captureAndSend` once the screenshot is there, or failed.
unfoldable pub send_capture :
    Setup → ℕ → Option (List ℕ) → ℕ → ScreencastStreamer → ScreencastStreamer
unfolding schedule_next_frame
send_capture u t_start none elapsed s = schedule_next_frame 1000 s
send_capture u t_start (some image) elapsed s =
    let is_changed = not (u.hash image == s.last_image_hash) in
    let s' = record s { last_image_hash = u.hash image } in
    let delay = interval_ms u.config is_changed - elapsed in
    if is_changed
    then send t_start image delay
        (encode_binary_header u.task_id_bytes (suc s.frame_seq) t_start 1280 720 (length image))
        (number s')
    else schedule_next_frame delay s'

abbrev pub remove_first : ℕ → List ℕ → List ℕ
remove_first t [] = []
remove_first t (x ∷ xs) = let rest = remove_first t xs in if nat_eq t x then xs else x ∷ rest

-- Calls of the two methods, a timer that is due, with whether the sink is available and what time it
-- is, and a screenshot that was begun at a time, with the milliseconds since then.
pub data Event : Type 0 where
  started stopped : Event
  fires : ℕ → Bool → ℕ → Event
  taken : ℕ → Option (List ℕ) → ℕ → Event

abbrev pub fired : ℕ → ScreencastStreamer → ScreencastStreamer
fired id s = record s { pending = without id s.pending }

abbrev pub landed : ℕ → ScreencastStreamer → ScreencastStreamer
landed t_start s = record s { in_flight = remove_first t_start s.in_flight }

unfoldable pub happen : Setup → Event → ScreencastStreamer → ScreencastStreamer
unfolding start stop capture send_capture
happen u started s = start s
happen u stopped s = stop s
happen u (fires id available now) s =
    if any (λ (t : Timer). nat_eq t.timer_id id) s.pending
    then capture available now (fired id s)
    else s
happen u (taken t_start shot elapsed) s =
    if any (nat_eq t_start) s.in_flight
    then send_capture u t_start shot elapsed (landed t_start s)
    else s

unfoldable pub happen_all : Setup → List Event → ScreencastStreamer → ScreencastStreamer
unfolding happen
happen_all u [] s = s
happen_all u (e ∷ es) s = happen_all u es (happen u e s)
