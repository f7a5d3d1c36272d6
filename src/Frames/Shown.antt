-- ===== src/Frames/Shown.antt =====
-- Frames that are shown.
use smart_form.Base.{
  ℕ, ◌+◌, ◌-◌, ◌^◌, ◌≤◌, ◌<◌, String, true, false, not, ◌||◌, ◌≡◌, ◌≢◌, refl, ap, ◌∙◌, Option, none,
  some, List, ◌++◌, ◌==◌, nat_eq, ltb, leb, if◌then◌else◌, length, take, drop, take-append,
  drop-append, length-append, append_assoc, append-nil, eq_iff, eq_refl, arith,
}
use smart_form.Frames.{
  magic, fixed_fields, header_fields, encode_binary_header, starts_with, get_uint32, handle_frame,
}
use smart_form.Frames.Bytes.{be, of_be, of_be-be}

-- The page's tests, for a frame whose fixed fields and task's length are in order.
abbrev pub handle_rest : (List ℕ → String) → String → ℕ → List ℕ → Option (List ℕ)
handle_rest decode active l rest =
    if leb (length rest) (4 + l)
    then none
    else if active == "" || not (decode (take l rest) == active)
    then none
    else if nat_eq (of_be (take 4 (drop l rest))) (length rest - (4 + l))
    then some (drop (4 + l) rest)
    else none

same_test : (a l : ℕ) → leb (26 + a) (30 + l) ≡ leb a (4 + l)
same_test a l = ground arith

same_length : (a l : ℕ) → 26 + a - (30 + l) ≡ a - (4 + l)
same_length a l = omega arith

-- `bytes` is the fixed fields and the task's length `l` before `rest`.
record IsFrame (l : ℕ) (rest bytes : List ℕ) : Type 0 where
  long : 30 ≤ length bytes
  starts : starts_with magic bytes ≡ true
  size : get_uint32 22 bytes ≡ l
  length : length bytes ≡ 26 + length rest
  drop : (m : ℕ) → drop (26 + m) bytes ≡ drop m rest

pub drop-all : (xs ys : List ℕ) → drop (length xs) (xs ++ ys) ≡ ys
drop-all xs ys = ap (λ n. drop n (xs ++ ys)) (omega arith) ∙ drop-append xs ys 0

take-all : (xs ys : List ℕ) → take (length xs) (xs ++ ys) ≡ xs
take-all xs ys = ap (λ n. take n (xs ++ ys)) (omega arith) ∙ take-append xs ys 0 ∙ append-nil xs

module _ (decode : List ℕ → String) (active : String) where
  handle-IsFrame :
      (l : ℕ) (rest bytes : List ℕ)
      → IsFrame l rest bytes
      → handle_frame decode active bytes ≡ handle_rest decode active l rest
  unfolding handle_frame
  handle-IsFrame l rest bytes f =
      let long : ltb (length bytes) 30 ≡ false = ground (arith, f.long) in
      let whole : drop 26 bytes ≡ rest = f.drop 0 in
      let image : drop (30 + l) bytes ≡ drop (4 + l) rest =
        ap (λ n. drop n bytes) (omega arith) ∙ f.drop (4 + l) in
      rw (
        long,
        f.starts,
        f.size,
        f.drop l,
        whole,
        image,
        f.length,
        same_test (length rest) l,
        same_length (length rest) l,
      )

  pub handle_frame-start :
      (seq t w h l : ℕ) (rest : List ℕ)
      → l < 2 ^ 32
      → 4 ≤ length rest
      → handle_frame decode active (fixed_fields seq t w h ++ be 4 l ++ rest)
        ≡ handle_rest decode active l rest
  handle_frame-start seq t w h l rest small long =
      handle-IsFrame l rest (fixed_fields seq t w h ++ be 4 l ++ rest) (record {
        long = omega arith;
        starts = refl;
        size = of_be-be 4 l (omega arith);
        length = omega arith;
        drop = drop-append (fixed_fields seq t w h ++ be 4 l) rest;
      })

  -- The tests of the rest: the task's id, the length of the image and what there is of it.
  handle_rest-append :
      (task_id_bytes more image : List ℕ) (image_len : ℕ)
      → active ≢ ""
      → decode task_id_bytes ≡ active
      → 0 < length image
      → of_be (take 4 more) ≡ image_len
      → drop 4 more ≡ image
      → length more ≡ 4 + length image
      → handle_rest decode active (length task_id_bytes) (task_id_bytes ++ more)
        ≡ (if nat_eq image_len (length image) then some image else none)
  handle_rest-append id more image n named own shown size last long =
      let id_part : take (length id) (id ++ more) ≡ id = take-all id more in
      let size_part : drop (length id) (id ++ more) ≡ more = drop-all id more in
      let image_part : drop (4 + length id) (id ++ more) ≡ image =
        ap (λ n. drop n (id ++ more)) (omega arith) ∙ drop-append id more 4 ∙ last in
      let all : length (id ++ more) ≡ 4 + length id + length image =
        omega (arith, length-append id more, long) in
      let enough : leb (4 + length id + length image) (4 + length id) ≡ false = ground arith in
      let left : 4 + length id + length image - (4 + length id) ≡ length image = omega arith in
      let not_empty : (active == "") ≡ false = ground (arith, eq_iff active "") in
      rw (all, id_part, size_part, image_part, enough, left, size, own, eq_refl active, not_empty)

  pub handle_rest-image :
      (task_id_bytes image : List ℕ) (image_len : ℕ)
      → image_len < 2 ^ 32
      → active ≢ ""
      → decode task_id_bytes ≡ active
      → 0 < length image
      → handle_rest decode active
          (length task_id_bytes)
          (task_id_bytes ++ (be 4 image_len ++ image))
        ≡ (if nat_eq image_len (length image) then some image else none)
  handle_rest-image id image n small named own shown =
      handle_rest-append id (be 4 n ++ image) image n named own shown (of_be-be 4 n (omega arith))
        refl (omega arith)

pub encode_lem :
    (id header : List ℕ) (seq t w h n : ℕ)
    → encode_binary_header id seq t w h n ≡ some header
    → header ≡ header_fields id seq t w h n × length id < 2 ^ 32 × n < 2 ^ 32
unfolding encode_binary_header
encode_lem id header seq t w h n encoded = ground arith

pub header-append :
    (id image : List ℕ) (seq t w h n : ℕ)
    → header_fields id seq t w h n ++ image
      ≡ fixed_fields seq t w h ++ be 4 (length id) ++ (id ++ (be 4 n ++ image))
header-append id image seq t w h n =
    ap (λ r. fixed_fields seq t w h ++ be 4 (length id) ++ r) (append_assoc id (be 4 n) image)

pub length-rest :
    (id image : List ℕ) (n : ℕ) → length (id ++ (be 4 n ++ image)) ≡ length id + (4 + length image)
length-rest id image n = omega (arith, length-append id (be 4 n ++ image))

-- What is encoded for the task that the page shows, with an image that is not empty, is shown whole.
pub handle_frame-encode :
    (decode : List ℕ → String) (active : String) (task_id_bytes image header : List ℕ)
    (seq t w h : ℕ)
    → active ≢ ""
    → decode task_id_bytes ≡ active
    → 0 < length image
    → encode_binary_header task_id_bytes seq t w h (length image) ≡ some header
    → handle_frame decode active (header ++ image) ≡ some image
unfolding encode_binary_header
handle_frame-encode decode active id image header seq t w h named own shown encoded =
    let (same, few, small) = encode_lem id header seq t w h (length image) encoded in
    let long = length-rest id image (length image) in
    let itself : nat_eq (length image) (length image) ≡ true = ground arith in
    rw (
      same,
      header-append id image seq t w h (length image),
      handle_frame-start decode active seq t w h (length id) (id ++ (be 4 (length image) ++ image))
          few (omega arith),
      handle_rest-image decode active id image (length image) small named own shown,
      itself,
    )
