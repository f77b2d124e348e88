-- ===== src/Text/Equality.antt =====
-- The test on texts decides equality.
use custodly.Prelude.{
  inl, inr, [], ◌==◌, ◌++◌, some, Bool-cases, ==_iff, false, ◌≢◌, ◌≡◌, ◌↔◌, true, ◌∷◌, arith,
}
use custodly.Text.{strip_prefix, Text, eq_text}

pub eq_text_iff : (s t : Text) → (eq_text s t ≡ true) ↔ (s ≡ t)
unfolding eq_text
eq_text_iff (x ∷ s) (y ∷ t) = ground (arith, eq_text_iff s t)
eq_text_iff _ _ = ground arith

pub eq_text_refl : (s : Text) → eq_text s s ≡ true
eq_text_refl s = ground (arith, eq_text_iff s s)

pub ne_of_test : (s t : Text) → eq_text s t ≡ false → s ≢ t
ne_of_test s t h e = cc ((eq_text_iff s t).1 e)

-- A text with a prefix is the prefix and the rest.
pub strip_prefix-eq_some : (p s r : Text) → strip_prefix p s ≡ some r → s ≡ p ++ r
unfolding strip_prefix
strip_prefix-eq_some [] s r h = cc h
strip_prefix-eq_some (x ∷ p) [] r h = cc h
strip_prefix-eq_some (x ∷ p) (y ∷ s) r h = elim (Bool-cases (x == y)) [
  | inl e ↦ cc ((==_iff x y).0 e, strip_prefix-eq_some p s r (rw e at h))
  | inr e ↦ cc (rw e at h)
]
