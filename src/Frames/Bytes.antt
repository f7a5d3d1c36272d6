-- ===== src/Frames/Bytes.antt =====
-- Numbers as bytes, the greater digits first.
use smart_form.Base.{
  ℕ, zero, suc, ◌+◌, ◌*◌, ◌^◌, ◌<◌, ◌≡◌, refl, ap, ◌∙◌, List, [], ◌∷◌, ◌++◌, length, length-append,
  arith,
}
use Prim.Native.Nat.{◌/◌, ◌%◌}

-- The bytes that `writeUInt…BE` writes for a number below 256 ^ n.
abbrev pub be : ℕ → ℕ → List ℕ
be zero v = []
be (suc n) v = be n (v / 256) ++ v % 256 ∷ []

abbrev pub of_be_from : ℕ → List ℕ → ℕ
of_be_from acc [] = acc
of_be_from acc (b ∷ bs) = of_be_from (acc * 256 + b) bs

abbrev pub of_be : List ℕ → ℕ
of_be = of_be_from 0

of_be_from-append :
    (acc : ℕ) (bs : List ℕ) (b : ℕ) → of_be_from acc (bs ++ b ∷ []) ≡ of_be_from acc bs * 256 + b
of_be_from-append acc [] b = refl
of_be_from-append acc (c ∷ bs) b = of_be_from-append (acc * 256 + c) bs b

high_digits : (n v : ℕ) → v < 256 ^ suc n → v / 256 < 256 ^ n
high_digits n v h = omega arith

pub of_be-be : (n v : ℕ) → v < 256 ^ n → of_be (be n v) ≡ v
of_be-be zero v h = omega arith
of_be-be (suc n) v h =
    of_be_from-append 0 (be n (v / 256)) (v % 256)
    ∙ ap (λ high. high * 256 + v % 256) (of_be-be n (v / 256) (high_digits n v h))
    ∙ omega arith

pub length-be : (n v : ℕ) → length (be n v) ≡ n
length-be zero v = refl
length-be (suc n) v =
    let more = length-append (be n (v / 256)) (v % 256 ∷ []) in
    let rest = length-be n (v / 256) in omega arith
