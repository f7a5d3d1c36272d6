-- ===== src/Frames.antt =====
-- apps/desktop/src/agent/stream.ts, the frame of the task's page that the desktop streams, and
-- `handleFrame` of apps/web/src/App.vue, which shows it. A buffer is the list of its bytes.
pub mod Bytes
pub mod Streamer
pub mod Shown
pub mod Cut
mod Tests
use smart_form.Base.{
  ℕ, ◌+◌, ◌-◌, ◌^◌, String, Bool, true, false, not, ◌&&◌, ◌||◌, Option, none, some, List, [], ◌∷◌,
  ◌++◌, ◌==◌, nat_eq, ltb, leb, if◌then◌else◌, length, take, drop,
}
use smart_form.Frames.Bytes.{be, of_be}

-- "SMFR".
abbrev pub magic : List ℕ
magic = 83 ∷ 77 ∷ 70 ∷ 82 ∷ []

-- The fields before the task's id, and all of the header; a buffer of the right size is written from
-- its start to its end.
abbrev pub fixed_fields : ℕ → ℕ → ℕ → ℕ → List ℕ
fixed_fields seq timestamp_ms width height =
    magic ++ (1 ∷ 0 ∷ []) ++ be 4 seq ++ be 8 timestamp_ms ++ be 2 width ++ be 2 height

abbrev pub header_fields : List ℕ → ℕ → ℕ → ℕ → ℕ → ℕ → List ℕ
header_fields task_id_bytes seq timestamp_ms width height image_len =
    fixed_fields seq timestamp_ms width height
    ++ be 4 (length task_id_bytes)
    ++ task_id_bytes
    ++ be 4 image_len

-- Each write throws where its number has more bytes than the field; the time is written as signed.
abbrev pub fits : List ℕ → ℕ → ℕ → ℕ → ℕ → ℕ → Bool
fits task_id_bytes seq timestamp_ms width height image_len =
    ltb seq (2 ^ 32)
    && ltb timestamp_ms (2 ^ 63)
    && ltb width (2 ^ 16)
    && ltb height (2 ^ 16)
    && ltb (length task_id_bytes) (2 ^ 32)
    && ltb image_len (2 ^ 32)

unfoldable pub encode_binary_header : List ℕ → ℕ → ℕ → ℕ → ℕ → ℕ → Option (List ℕ)
encode_binary_header task_id_bytes seq timestamp_ms width height image_len =
    if fits task_id_bytes seq timestamp_ms width height image_len
    then some (header_fields task_id_bytes seq timestamp_ms width height image_len)
    else none

abbrev pub starts_with : List ℕ → List ℕ → Bool
starts_with [] bytes = true
starts_with (p ∷ ps) [] = false
starts_with (p ∷ ps) (b ∷ bytes) = nat_eq p b && starts_with ps bytes

-- `view.getUint32`.
abbrev pub get_uint32 : ℕ → List ℕ → ℕ
get_uint32 offset bytes = of_be (take 4 (drop offset bytes))

-- The image that replaces the one on the page. `decode` is `TextDecoder`.
unfoldable pub handle_frame : (List ℕ → String) → String → List ℕ → Option (List ℕ)
handle_frame decode active_task_id bytes =
    if ltb (length bytes) 30 || not (starts_with magic bytes)
    then none
    else let task_id_length = get_uint32 22 bytes in
      let header_length = 30 + task_id_length in
      let frame_task_id = decode (take task_id_length (drop 26 bytes)) in
      if leb (length bytes) header_length
      then none
      else if active_task_id == "" || not (frame_task_id == active_task_id)
      then none
      else if nat_eq (get_uint32 (26 + task_id_length) bytes) (length bytes - header_length)
      then some (drop header_length bytes)
      else none
