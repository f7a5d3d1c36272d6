-- ===== src/Frames/Streamer/Sent.antt =====
-- What a streamer sent.
use smart_form.Base.{
  ℕ, suc, ◌<◌, ◌≤◌, String, Bool, true, false, ◌≡◌, refl, Option, none, some, List, [], ◌∷◌, ◌++◌,
  length, All, arith, nat_eq, any, if_has, ◌||◌, ◌==◌, not,
}
use smart_form.Frames.{encode_binary_header, handle_frame}
use smart_form.Frames.Streamer.{
  Setup, Frame, Timer, ScreencastStreamer, schedule_next_frame, start, stop, capture, send, number,
  send_capture, Event, started, stopped, fires, taken, happen, happen_all, clear_timer, fired,
  landed,
}

-- The numbers fall from the newest frame to the oldest, below the bound.
abbrev pub Descending : ℕ → List Frame → Type 0
Descending bound [] = Unit
Descending bound (f ∷ fs) = f.seq < bound × Descending f.seq fs

-- The frame is a header of its task, number, time and image before the image.
abbrev pub IsEncoded : Setup → Frame → Type 0
IsEncoded u f =
    (header : List ℕ) × (encode_binary_header u.task_id_bytes f.seq f.timestamp_ms 1280 720
          (length f.image)
        ≡ some header
      × f.packet ≡ header ++ f.image)

pub record IsSound (u : Setup) (s : ScreencastStreamer) : Type 0 where
  pub numbered : Descending (suc s.frame_seq) s.sent
  pub encoded : All (IsEncoded u) s.sent

Descending-le : (a b : ℕ) (fs : List Frame) → a ≤ b → Descending a fs → Descending b fs
Descending-le a b [] h d = d
Descending-le a b (f ∷ fs) h (first, rest) = (omega arith, rest)

module _ (u : Setup) where
  schedule-IsSound :
      (d : ℕ) (s : ScreencastStreamer) → IsSound u s → IsSound u (schedule_next_frame d s)
  unfolding schedule_next_frame
  schedule-IsSound d s v =
      if_has (IsSound u) (not s.is_streaming) v
        (record { numbered = v.numbered; encoded = v.encoded })

  start-IsSound : (s : ScreencastStreamer) → IsSound u s → IsSound u (start s)
  unfolding start
  start-IsSound s v = if_has (IsSound u) s.is_streaming v (
      schedule-IsSound 100 (record s { is_streaming = true })
        (record { numbered = v.numbered; encoded = v.encoded }))

  clear-IsSound :
      (t : Option ℕ) (s : ScreencastStreamer) → IsSound u s → IsSound u (clear_timer t s)
  clear-IsSound none s v = v
  clear-IsSound (some id) s v = record { numbered = v.numbered; encoded = v.encoded }

  stop-IsSound : (s : ScreencastStreamer) → IsSound u s → IsSound u (stop s)
  unfolding stop
  stop-IsSound s v =
      clear-IsSound s.timer (record s { is_streaming = false })
        (record { numbered = v.numbered; encoded = v.encoded })

  capture-IsSound :
      (available : Bool) (now : ℕ) (s : ScreencastStreamer)
      → IsSound u s
      → IsSound u (capture available now s)
  unfolding capture
  capture-IsSound available now s v =
      if_has (IsSound u) (not s.is_streaming || not available) (schedule-IsSound 1000 s v)
        (record { numbered = v.numbered; encoded = v.encoded })

  send-IsSound :
      (t : ℕ) (image : List ℕ) (delay : ℕ) (encoded : Option (List ℕ)) (s : ScreencastStreamer)
      → encode_binary_header u.task_id_bytes (suc s.frame_seq) t 1280 720 (length image) ≡ encoded
      → IsSound u s
      → IsSound u (send t image delay encoded (number s))
  send-IsSound t image delay none s h v =
      schedule-IsSound 1000 (number s) (record {
        numbered = Descending-le _ _ s.sent (omega arith) v.numbered;
        encoded = v.encoded;
      })
  send-IsSound t image delay (some header) s h v =
      schedule-IsSound delay _ (record {
        numbered = (omega arith, v.numbered);
        encoded = ((header, (h, refl)), v.encoded);
      })

  send_capture-IsSound :
      (t : ℕ) (shot : Option (List ℕ)) (elapsed : ℕ) (s : ScreencastStreamer)
      → IsSound u s
      → IsSound u (send_capture u t shot elapsed s)
  unfolding send_capture
  send_capture-IsSound t none elapsed s v = schedule-IsSound 1000 s v
  send_capture-IsSound t (some image) elapsed s v =
      let kept : IsSound u (record s { last_image_hash = u.hash image }) = record {
        numbered = v.numbered;
        encoded = v.encoded;
      } in
      if_has (IsSound u) (not (u.hash image == s.last_image_hash))
        (send-IsSound t image _ _ (record s { last_image_hash = u.hash image }) refl kept)
        (schedule-IsSound _ (record s { last_image_hash = u.hash image }) kept)

  happen-IsSound : (e : Event) (s : ScreencastStreamer) → IsSound u s → IsSound u (happen u e s)
  unfolding happen
  happen-IsSound started s v = start-IsSound s v
  happen-IsSound stopped s v = stop-IsSound s v
  happen-IsSound (fires id available now) s v =
      if_has (IsSound u) (any (λ (t : Timer). nat_eq t.timer_id id) s.pending)
        (capture-IsSound available now (fired id s)
          (record { numbered = v.numbered; encoded = v.encoded }))
        v
  happen-IsSound (taken t shot elapsed) s v =
      if_has (IsSound u) (any (nat_eq t) s.in_flight)
        (send_capture-IsSound t shot elapsed (landed t s)
          (record { numbered = v.numbered; encoded = v.encoded }))
        v

  pub happen_all-IsSound :
      (es : List Event) (s : ScreencastStreamer) → IsSound u s → IsSound u (happen_all u es s)
  unfolding happen_all
  happen_all-IsSound [] s v = v
  happen_all-IsSound (e ∷ es) s v = happen_all-IsSound es (happen u e s) (happen-IsSound e s v)

-- A frame that is not empty is shown whole on a page that shows the streamer's task.
abbrev pub IsShown : Setup → (List ℕ → String) → String → Frame → Type 0
IsShown u decode active f = 0 < length f.image → handle_frame decode active f.packet ≡ some f.image
