-- ===== src/Text/Trim.antt =====
-- Trimming: idempotent, and no character but white space is lost.
use custodly.Prelude.{ℕ, ◌≡◌, refl, ap, ◌∙◌, sym, false, [], ◌∷◌, arith}
use custodly.Text.{Text, is_whitespace, trim_start, trim_end, trim, has, strip_cr}

has-trim_start : (c : ℕ) (s : Text) → is_whitespace c ≡ false → has c (trim_start s) ≡ has c s
unfolding has trim_start
has-trim_start c [] h = refl
has-trim_start c (x ∷ s) h = ground (arith, has-trim_start c s h)

has-trim_end : (c : ℕ) (s : Text) → is_whitespace c ≡ false → has c (trim_end s) ≡ has c s
unfolding has trim_end
has-trim_end c [] h = refl
has-trim_end c (x ∷ s) h = ground (arith, has-trim_end c s h)

pub has-trim : (c : ℕ) (s : Text) → is_whitespace c ≡ false → has c (trim s) ≡ has c s
unfolding trim
has-trim c s h = has-trim_end c (trim_start s) h ∙ has-trim_start c s h

pub trim_end_idem : (s : Text) → trim_end (trim_end s) ≡ trim_end s
unfolding trim_end
trim_end_idem [] = refl
trim_end_idem (x ∷ s) = ground (arith, trim_end_idem s)

-- A trimmed text ends in no white space.
pub trim_end_of_trim : (s : Text) → trim s ≡ s → trim_end s ≡ s
unfolding trim
trim_end_of_trim s h = ap trim_end (sym h) ∙ trim_end_idem (trim_start s) ∙ h

pub strip_cr_of_trim_end : (s : Text) → trim_end s ≡ s → strip_cr s ≡ s
unfolding trim_end strip_cr is_whitespace
strip_cr_of_trim_end [] h = refl
strip_cr_of_trim_end (x ∷ []) h = ground arith
strip_cr_of_trim_end (x ∷ y ∷ s) h = ground (arith, strip_cr_of_trim_end (y ∷ s))
