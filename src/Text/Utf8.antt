-- ===== src/Text/Utf8.antt =====
-- `as_bytes` and `into_bytes`: the UTF-8 form of a text.
use custodly.Prelude.{ℕ, ◌+◌, ◌/◌, ◌%◌, ◌≡◌, refl, List, [], ◌∷◌, ◌++◌, arith, ltb, if◌then◌else◌}
use custodly.Text.{Text}

abbrev pub Bytes : Type 0
Bytes = List ℕ

-- A byte of the form 10xxxxxx.
abbrev tail_byte : ℕ → ℕ
tail_byte n = 128 + n % 64

unfoldable pub char_bytes : ℕ → Bytes
char_bytes c =
    if ltb c 128
    then c ∷ []
    else if ltb c 2048
    then (192 + c / 64) ∷ tail_byte c ∷ []
    else if ltb c 65536
    then (224 + c / 4096) ∷ tail_byte (c / 64) ∷ tail_byte c ∷ []
    else (240 + c / 262144) ∷ tail_byte (c / 4096) ∷ tail_byte (c / 64) ∷ tail_byte c ∷ []

unfoldable pub as_bytes : Text → Bytes
unfolding char_bytes
as_bytes [] = []
as_bytes (c ∷ s) = char_bytes c ++ as_bytes s

-- No character's bytes begin another's.
char_bytes-append :
    (c d : ℕ) (s t : Bytes) → char_bytes c ++ s ≡ char_bytes d ++ t → (c ≡ d) × (s ≡ t)
unfolding char_bytes
char_bytes-append c d s t h = ground arith

pub as_bytes-injective : (s t : Text) → as_bytes s ≡ as_bytes t → s ≡ t
unfolding as_bytes
as_bytes-injective [] [] h = refl
as_bytes-injective (c ∷ s) [] h = ground arith
as_bytes-injective [] (d ∷ t) h = ground arith
as_bytes-injective (c ∷ s) (d ∷ t) h =
    let (same, rest) = char_bytes-append c d (as_bytes s) (as_bytes t) h in
    cc (as_bytes-injective s t rest)
