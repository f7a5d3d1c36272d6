-- ===== src/Base/Text.antt =====
-- The string functions of the language that the program calls, on code points.
use Prim.Native.Nat.{ℕ, ◌+◌}
use Prim.Native.Char.{code}
use Prim.Native.String
use Prim.Native.String.{String}
use mathlib.Core.Bool.{Bool, true, false, ◌&&◌, ◌||◌, not}
use mathlib.Core.Option.{Option, none, some}
use mathlib.Core.List.{List, [], ◌∷◌, map}
use text.Mathlib.Text.{◌==◌}
use smart_form.Base.Tests.{nat_eq, leb, if◌then◌else◌}

abbrev pub codes : String → List ℕ
codes String.[] = []
codes (String.◌∷◌ c s) = code c ∷ codes s

abbrev pub is_prefix : List ℕ → List ℕ → Bool
is_prefix [] text = true
is_prefix (p ∷ ps) [] = false
is_prefix (p ∷ ps) (c ∷ text) = nat_eq p c && is_prefix ps text

abbrev contains_code : List ℕ → List ℕ → Bool
contains_code part [] = is_prefix part []
contains_code part (c ∷ text) = is_prefix part (c ∷ text) || contains_code part text

-- `text.includes(part)`.
unfoldable pub includes : String → String → Bool
includes text part = contains_code (codes part) (codes text)

-- A regular expression without the `u` flag folds no character beyond ASCII to an ASCII letter.
abbrev fold_case : ℕ → ℕ
fold_case c = if leb b'A' c && leb c b'Z' then c + 32 else c

-- `/word/i.test(text)`, for a word in lower case.
unfoldable pub matches_word : String → String → Bool
matches_word text word = contains_code (codes word) (map fold_case (codes text))

-- An optional text in a condition: `undefined` and the empty text count as false.
abbrev pub truthy : Option String → Bool
truthy none = false
truthy (some s) = not (s == "")

abbrev pub opt_eq : Option String → Option String → Bool
opt_eq none none = true
opt_eq (some a) (some b) = a == b
opt_eq _ _ = false

-- The template `${a}${b}`.
abbrev pub text_concat : String → String → String
text_concat a b = String.◌++◌ a b

-- `WhiteSpace` and `LineTerminator` of the language.
abbrev is_space : ℕ → Bool
is_space c =
    (leb 9 c && leb c 13)
    || nat_eq c 32
    || nat_eq c 0xa0
    || nat_eq c 0x1680
    || (leb 0x2000 c && leb c 0x200a)
    || nat_eq c 0x2028
    || nat_eq c 0x2029
    || nat_eq c 0x202f
    || nat_eq c 0x205f
    || nat_eq c 0x3000
    || nat_eq c 0xfeff

abbrev trim_start : String → String
trim_start String.[] = String.[]
trim_start (String.◌∷◌ c s) = if is_space (code c) then trim_start s else String.◌∷◌ c s

abbrev trim_end : String → String
trim_end String.[] = String.[]
trim_end (String.◌∷◌ c s) =
    let rest = trim_end s in
    if rest == "" && is_space (code c) then String.[] else String.◌∷◌ c rest

-- `text.trim()`.
pub trim : String → String
trim s = trim_end (trim_start s)
