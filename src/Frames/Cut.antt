-- ===== src/Frames/Cut.antt =====
-- Frames that a connection cut short.
use smart_form.Base.{
  ℕ, ◌+◌, ◌-◌, ◌^◌, ◌≤◌, ◌<◌, String, ◌≡◌, ◌≢◌, inl, inr, ap, ◌∙◌, none, some, List, ◌++◌, nat_eq,
  ltb, leb, true, false, length, take, drop, take-append, length-take, arith, if_same, le_or_beyond,
  suc,
}
use smart_form.Frames.{fixed_fields, encode_binary_header, handle_frame}
use smart_form.Frames.Bytes.{be, of_be, of_be-be}
use smart_form.Frames.Shown.{
  handle_rest, handle_frame-start, encode_lem, header-append, length-rest, drop-all,
}

module _ (decode : List ℕ → String) (active : String) where
  too_short : (bytes : List ℕ) → length bytes < 30 → handle_frame decode active bytes ≡ none
  unfolding handle_frame
  too_short bytes h = let short : ltb (length bytes) 30 ≡ true = ground arith in rw short

  no_image : (l : ℕ) (rest : List ℕ) → length rest ≤ 4 + l → handle_rest decode active l rest ≡ none
  no_image l rest h = let short : leb (length rest) (4 + l) ≡ true = ground arith in rw short

  other_length :
      (l n : ℕ) (rest : List ℕ)
      → of_be (take 4 (drop l rest)) ≡ n
      → n ≢ length rest - (4 + l)
      → handle_rest decode active l rest ≡ none
  other_length l n rest h differ =
      let apart : nat_eq n (length rest - (4 + l)) ≡ false = ground arith in
      rw (h, apart, if_same, if_same)

  -- After the whole header, `k` bytes of the image.
  cut_image :
      (id image : List ℕ) (k : ℕ)
      → length image < 2 ^ 32
      → k < length image
      → handle_rest decode active (length id) (id ++ (be 4 (length image) ++ take k image)) ≡ none
  cut_image id image k small h =
      other_length (length id) (length image) (id ++ (be 4 (length image) ++ take k image))
        (ap (λ r. of_be (take 4 r)) (drop-all id (be 4 (length image) ++ take k image))
          ∙ of_be-be 4 (length image) (omega arith))
        (omega (arith, length-rest id (take k image) (length image), length-take image k))

  cut_rest :
      (id image : List ℕ) (m : ℕ)
      → length image < 2 ^ 32
      → m < length id + 4 + length image
      → handle_rest decode active (length id) (take m (id ++ (be 4 (length image) ++ image))) ≡ none
  cut_rest id image m small h =
      let rest = be 4 (length image) ++ image in
      let long : length (take m (id ++ rest)) ≡ m =
        length-take (id ++ rest) m ∙ omega (arith, length-rest id image (length image)) in
      elim (le_or_beyond m (4 + length id)) [
        | inl few ↦ no_image (length id) (take m (id ++ rest)) (omega arith)
        | inr (k, more) ↦
            ap (handle_rest decode active (length id)) (
              ap (λ n. take n (id ++ rest)) (omega arith)
              ∙ take-append id rest (4 + suc k)
              ∙ ap (λ r. id ++ r) (take-append (be 4 (length image)) image (suc k)))
            ∙ cut_image id image (suc k) small (omega arith)
      ]

  cut_frame :
      (id image : List ℕ) (seq t w h n : ℕ)
      → length id < 2 ^ 32
      → length image < 2 ^ 32
      → n < 30 + length id + length image
      → handle_frame decode active (
          take n
            (fixed_fields seq t w h ++ be 4 (length id) ++ (id ++ (be 4 (length image) ++ image))))
        ≡ none
  cut_frame id image seq t w h n few small short =
      let front = fixed_fields seq t w h ++ be 4 (length id) in
      let rest = id ++ (be 4 (length image) ++ image) in
      let size : length rest ≡ length id + (4 + length image) =
        length-rest id image (length image) in
      elim (le_or_beyond n 29) [
        | inl few_bytes ↦
            too_short (take n (front ++ rest)) (omega (arith, length-take (front ++ rest) n))
        | inr (k, more) ↦
            ap (handle_frame decode active)
              (ap (λ i. take i (front ++ rest)) (omega arith) ∙ take-append front rest (4 + k))
            ∙ handle_frame-start decode active seq t w h (length id) (take (4 + k) rest) few
                (omega (arith, length-take rest (4 + k)))
            ∙ cut_rest id image (4 + k) small (omega arith)
      ]

-- A frame that was cut short, wherever, shows nothing.
pub handle_frame-take :
    (decode : List ℕ → String) (active : String) (task_id_bytes image header : List ℕ)
    (seq t w h n : ℕ)
    → encode_binary_header task_id_bytes seq t w h (length image) ≡ some header
    → n < length (header ++ image)
    → handle_frame decode active (take n (header ++ image)) ≡ none
handle_frame-take decode active id image header seq t w h n encoded short =
    let (same, few, small) = encode_lem id header seq t w h (length image) encoded in
    let whole = ap (λ r. r ++ image) same ∙ header-append id image seq t w h (length image) in
    let size = length-rest id image (length image) in
    ap (λ bytes. handle_frame decode active (take n bytes)) whole
    ∙ cut_frame decode active id image seq t w h n few small (omega (arith, ap length whole))
