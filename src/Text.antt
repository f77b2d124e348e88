-- ===== src/Text.antt =====
-- The operations of Rust's `str` that the crates call (`trim`, `split_once`, `split`, `lines`,
-- `contains`, `starts_with`, `join`), over lists of code points.
pub mod Equality
pub mod Trim
pub mod Split
pub mod Contains
pub mod Decimal
pub mod Utf8
use Prim.Native.Char.{code}
use Prim.Native.String.{String}
use custodly.Prelude.{
  ℕ, ◌+◌, Bool, true, false, ◌&&◌, ◌||◌, List, [], ◌∷◌, ◌++◌, Option, none, some, ◌==◌, leb,
  if◌then◌else◌, is_empty,
}

abbrev pub Text : Type 0
Text = List ℕ

-- The code points of a literal.
abbrev pub codes : String → Text
codes String.[] = []
codes (String.◌∷◌ c s) = code c ∷ codes s

-- `==` on `str`.
unfoldable pub eq_text : Text → Text → Bool
eq_text [] [] = true
eq_text (x ∷ s) (y ∷ t) = x == y && eq_text s t
eq_text _ _ = false

-- `char::is_whitespace`: the Unicode property White_Space.
unfoldable pub is_whitespace : ℕ → Bool
is_whitespace c =
    (leb 9 c && leb c 13)
    || c == 32
    || c == 0x85
    || c == 0xa0
    || c == 0x1680
    || (leb 0x2000 c && leb c 0x200a)
    || c == 0x2028
    || c == 0x2029
    || c == 0x202f
    || c == 0x205f
    || c == 0x3000

unfoldable pub trim_start : Text → Text
trim_start [] = []
trim_start (c ∷ s) = if is_whitespace c then trim_start s else c ∷ s

unfoldable pub trim_end : Text → Text
trim_end [] = []
trim_end (c ∷ s) =
    let rest = trim_end s in if is_whitespace c && is_empty rest then [] else c ∷ rest

unfoldable pub trim : Text → Text
trim s = trim_end (trim_start s)

-- The text before the first `c` and the text behind it.
abbrev pub first_cons : ℕ → Option (Text × Text) → Option (Text × Text)
first_cons x none = none
first_cons x (some (a, b)) = some (x ∷ a, b)

unfoldable pub split_once : ℕ → Text → Option (Text × Text)
split_once c [] = none
split_once c (x ∷ s) = if x == c then some ([], s) else first_cons x (split_once c s)

-- `split(c)`: always at least one piece.
abbrev pub cons_head : ℕ → List Text → List Text
cons_head x [] = (x ∷ []) ∷ []
cons_head x (p ∷ ps) = (x ∷ p) ∷ ps

unfoldable pub split : ℕ → Text → List Text
split c [] = [] ∷ []
split c (x ∷ s) = let rest = split c s in if x == c then [] ∷ rest else cons_head x rest

-- `[..].join(&sep)`.
unfoldable pub join : Text → List Text → Text
join sep [] = []
join sep (p ∷ []) = p
join sep (p ∷ q ∷ ps) = p ++ (sep ++ join sep (q ∷ ps))

-- A line that ends in a newline loses one carriage return in front of it.
unfoldable pub strip_cr : Text → Text
strip_cr [] = []
strip_cr (x ∷ []) = if x == 13 then [] else x ∷ []
strip_cr (x ∷ y ∷ s) = x ∷ strip_cr (y ∷ s)

-- What follows the last newline is a line only if it is not empty, and keeps its `\r`.
unfoldable pub end_lines : List Text → List Text
end_lines [] = []
end_lines (p ∷ []) = if is_empty p then [] else p ∷ []
end_lines (p ∷ q ∷ ps) = strip_cr p ∷ end_lines (q ∷ ps)

unfoldable pub lines : Text → List Text
unfolding split end_lines strip_cr
lines s = end_lines (split b'\n' s)

-- The text behind a prefix.
unfoldable pub strip_prefix : Text → Text → Option Text
strip_prefix [] s = some s
strip_prefix (x ∷ p) [] = none
strip_prefix (x ∷ p) (y ∷ s) = let rest = strip_prefix p s in if x == y then rest else none

unfoldable pub starts_with : Text → Text → Bool
starts_with [] s = true
starts_with (x ∷ p) [] = false
starts_with (x ∷ p) (y ∷ s) = x == y && starts_with p s

unfoldable pub contains : Text → Text → Bool
unfolding starts_with
contains p [] = starts_with p []
contains p (y ∷ s) = starts_with p (y ∷ s) || contains p s

-- Whether a character occurs.
unfoldable pub has : ℕ → Text → Bool
has c [] = false
has c (x ∷ s) = x == c || has c s
