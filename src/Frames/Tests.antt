-- ===== src/Frames/Tests.antt =====
-- Concrete frames.
use smart_form.Base.{
  eq_iff, ℕ, String, true, ◌≡◌, ◌≢◌, refl, none, some, List, [], ◌∷◌, ◌++◌, length, take, arith,
}
use smart_form.Frames.{header_fields, encode_binary_header, handle_frame}
use smart_form.Frames.Shown.{handle_frame-encode}
use smart_form.Frames.Cut.{handle_frame-take}
use smart_form.Frames.Streamer.{
  Setup, ScreencastStreamer, new_streamer, Event, started, fires, taken, happen_all,
}

-- The task "t1", and a decoder of that name.
abbrev t1 : List ℕ
t1 = 116 ∷ 49 ∷ []

abbrev decode : List ℕ → String
decode [] = ""
decode (b ∷ bytes) = "t1"

abbrev image : List ℕ
image = 255 ∷ 216 ∷ 255 ∷ []

abbrev header : List ℕ
header = header_fields t1 7 1700000000000 1280 720 3

encoded : encode_binary_header t1 7 1700000000000 1280 720 (length image) ≡ some header
unfolding encode_binary_header
encoded = refl

abbrev active : String
active = "t1"

named : active ≢ ""
named h = ground (arith, (eq_iff active "").1 h)

handle_frame-encode_example : handle_frame decode active (header ++ image) ≡ some image
handle_frame-encode_example =
    handle_frame-encode decode active t1 image header 7 1700000000000 1280 720 named refl
      (omega arith) encoded

handle_frame-take_example : handle_frame decode active (take 33 (header ++ image)) ≡ none
handle_frame-take_example =
    handle_frame-take decode active t1 image header 7 1700000000000 1280 720 33 encoded
      (omega arith)

abbrev setup : Setup
setup = record {
  task_id_bytes = t1;
  config = record { target_fps = 0; idle_fps = 0 };
  hash = λ bytes. decode bytes;
}

-- Two screenshots of the same page.
abbrev story : List Event
story =
    started
    ∷ fires 0 true 1000
    ∷ taken 1000 (some image) 20
    ∷ fires 1 true 1200
    ∷ taken 1200 (some image) 20
    ∷ []

sent_once : length (happen_all setup story new_streamer).sent ≡ 1
unfolding happen_all encode_binary_header
sent_once = refl

abbrev halted : ScreencastStreamer
halted = record new_streamer { in_flight = 1000 ∷ [] }
