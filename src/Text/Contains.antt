-- ===== src/Text/Contains.antt =====
-- Substrings: where `contains` finds a pattern.
use custodly.Prelude.{
  ℕ, ◌≡◌, refl, true, ◌||◌, [], ◌∷◌, ◌++◌, arith, append-nil, List, Bool, Bool-cases, inl, false,
  inr,
}
use custodly.Text.{Text, has, starts_with, contains, trim, trim_start, trim_end, join}

pub has-append : (c : ℕ) (s t : Text) → has c (s ++ t) ≡ (has c s || has c t)
unfolding has
has-append c [] t = refl
has-append c (x ∷ s) t = ground (arith, has-append c s t)

-- What starts with a pattern holds the pattern's first character.
pub contains-has : (c : ℕ) (p s : Text) → contains (c ∷ p) s ≡ true → has c s ≡ true
unfolding contains starts_with has
contains-has c p [] h = cc
contains-has c p (x ∷ s) h = ground (arith, contains-has c p s)

starts_with-append : (p s : Text) → starts_with p (p ++ s) ≡ true
unfolding starts_with
starts_with-append [] s = refl
starts_with-append (x ∷ p) s = ground (arith, starts_with-append p s)

starts_with_longer : (p s t : Text) → starts_with p s ≡ true → starts_with p (s ++ t) ≡ true
unfolding starts_with
starts_with_longer [] s t h = refl
starts_with_longer (x ∷ p) [] t h = cc
starts_with_longer (x ∷ p) (y ∷ s) t h = ground (arith, starts_with_longer p s t)

pub contains_here : (p s : Text) → starts_with p s ≡ true → contains p s ≡ true
unfolding contains
contains_here p [] h = h
contains_here p (x ∷ s) h = rw h

pub contains_self : (p : Text) → contains p p ≡ true
contains_self p = contains_here p p (rw append-nil at (starts_with-append p []))

pub contains-append_right : (p s t : Text) → contains p t ≡ true → contains p (s ++ t) ≡ true
unfolding contains
contains-append_right p [] t h = h
contains-append_right p (x ∷ s) t h = ground (arith, contains-append_right p s t)

pub contains-append_left : (p s t : Text) → contains p s ≡ true → contains p (s ++ t) ≡ true
unfolding contains
contains-append_left p [] t h = contains_here p t (starts_with_longer p [] t h)
contains-append_left p (x ∷ s) t h =
    ground (arith, contains-append_left p s t, starts_with_longer p (x ∷ s) t)

contains-trim_start : (p s : Text) → contains p (trim_start s) ≡ true → contains p s ≡ true
unfolding contains trim_start
contains-trim_start p [] h = h
contains-trim_start p (x ∷ s) h = ground (arith, contains-trim_start p s)

starts_with-trim_end : (p s : Text) → starts_with p (trim_end s) ≡ true → starts_with p s ≡ true
unfolding starts_with trim_end
starts_with-trim_end [] s h = refl
starts_with-trim_end (y ∷ p) [] h = h
starts_with-trim_end (y ∷ p) (x ∷ s) h = ground (arith, starts_with-trim_end p s)

contains-trim_end :
    (c : ℕ) (p s : Text) → contains (c ∷ p) (trim_end s) ≡ true → contains (c ∷ p) s ≡ true
unfolding contains trim_end
contains-trim_end c p [] h = h
contains-trim_end c p (x ∷ s) h =
    ground (arith, contains-trim_end c p s, starts_with-trim_end (c ∷ p) (x ∷ s))

-- A pattern that a trimmed text holds is in the text.
pub contains-trim :
    (c : ℕ) (p s : Text) → contains (c ∷ p) (trim s) ≡ true → contains (c ∷ p) s ≡ true
unfolding trim
contains-trim c p s h = contains-trim_start (c ∷ p) s (contains-trim_end c p (trim_start s) h)

abbrev pub contains_piece : Text → List Text → Bool
contains_piece q [] = false
contains_piece q (p ∷ ps) = contains q p || contains_piece q ps

-- What a piece holds, the joined text holds.
pub contains-join :
    (q sep : Text) (ps : List Text) → contains_piece q ps ≡ true → contains q (join sep ps) ≡ true
unfolding join
contains-join q sep [] h = cc
contains-join q sep (p ∷ []) h = ground arith
contains-join q sep (p ∷ r ∷ ps) h = elim (Bool-cases (contains q p)) [
  | inl here ↦ contains-append_left q p _ here
  | inr not_here ↦
      contains-append_right q p _
        (contains-append_right q sep _ (contains-join q sep (r ∷ ps) (rw not_here at h)))
]
