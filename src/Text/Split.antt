-- ===== src/Text/Split.antt =====
-- Splitting and joining: what the pieces of a split are, and the lines of joined lines.
use custodly.Prelude.{
  ==_iff, ℕ, ◌≡◌, refl, ap, ◌∙◌, Bool, false, ◌||◌, List, [], ◌∷◌, ◌++◌, arith, ◌==◌, Bool-cases,
  inl, inr, is_empty, some, Option-cases, All,
}
use custodly.Text.{Text, split, split_once, cons_head, has, join, lines, end_lines, strip_cr}

pub split-nonempty : (c : ℕ) (s : Text) → (p : Text) × (ps : List Text) × (split c s ≡ p ∷ ps)
unfolding split
split-nonempty c [] = ([], [], refl)
split-nonempty c (x ∷ s) =
    let (p, ps, e) = split-nonempty c s in
    elim (Bool-cases (x == c)) [ inl h ↦ ([], split c s, rw h) | inr h ↦ (x ∷ p, ps, rw (h, e)) ]

-- The pieces of a text on both sides of a separator.
pub split-append : (c : ℕ) (s t : Text) → split c (s ++ (c ∷ t)) ≡ split c s ++ split c t
unfolding split
split-append c [] t = ground arith
split-append c (x ∷ s) t =
    let (p, ps, e) = split-nonempty c s in
    elim (Bool-cases (x == c)) [
      | inl h ↦ rw (h, split-append c s t)
      | inr h ↦ rw (h, split-append c s t, e)
    ]

pub split-whole : (c : ℕ) (s : Text) → has c s ≡ false → split c s ≡ s ∷ []
unfolding split has
split-whole c [] h = refl
split-whole c (x ∷ s) h = ground (arith, split-whole c s)

pub split_once-append :
    (c : ℕ) (s t : Text) → has c s ≡ false → split_once c (s ++ (c ∷ t)) ≡ some (s, t)
unfolding split_once has
split_once-append c [] t h = ground arith
split_once-append c (x ∷ s) t h = ground (arith, split_once-append c s t)

pub split_once-eq_some :
    (c : ℕ) (s : Text) {a b : Text}
    → split_once c s ≡ some (a, b)
    → (s ≡ a ++ (c ∷ b)) × (has c a ≡ false)
unfolding split_once has
split_once-eq_some c [] h = cc
split_once-eq_some c (x ∷ s) {a} {b} h = elim (Bool-cases (x == c)) [
  | inl e ↦ ground arith
  | inr e ↦ elim (Option-cases (split_once c s)) [
    | inl n ↦ ground arith
    | inr ((a', b'), m) ↦ ground (arith, split_once-eq_some c s m)
  ]
]

-- A character other than the separator is in the text exactly if it is in a piece.
abbrev pub has_piece : ℕ → List Text → Bool
has_piece d [] = false
has_piece d (p ∷ ps) = has d p || has_piece d ps

has_piece-cons_head :
    (d x : ℕ) (ps : List Text) → has_piece d (cons_head x ps) ≡ (x == d || has_piece d ps)
unfolding has
has_piece-cons_head d x [] = ground arith
has_piece-cons_head d x (p ∷ ps) = ground arith

pub has-split : (c d : ℕ) (s : Text) → (d == c) ≡ false → has_piece d (split c s) ≡ has d s
unfolding split has
has-split c d [] h = refl
has-split c d (x ∷ s) h = ground (arith, has-split c d s h, has_piece-cons_head d x (split c s))

-- No piece holds the separator.
pub not-has-split : (c : ℕ) (s : Text) → has_piece c (split c s) ≡ false
unfolding split has
not-has-split c [] = refl
not-has-split c (x ∷ s) = ground (arith, not-has-split c s, has_piece-cons_head c x (split c s))

-- A piece of text that can stand on a line of its own and be read back unchanged.
abbrev pub IsLine : Text → Type 0
IsLine p = (has b'\n' p ≡ false) × (strip_cr p ≡ p)

split-join :
    (p : Text) (ps : List Text)
    → All IsLine (p ∷ ps)
    → split b'\n' (join (b'\n' ∷ []) (p ∷ ps)) ≡ p ∷ ps
unfolding join
split-join p [] h = split-whole b'\n' p h.0.0
split-join p (q ∷ ps) h = rw (split-append, split-whole b'\n' p h.0.0, split-join q ps h.1)

end_lines-join :
    (p : Text) (ps : List Text) (last : Text)
    → All IsLine (p ∷ ps)
    → is_empty last ≡ false
    → end_lines (p ∷ ps ++ (last ∷ [])) ≡ p ∷ ps ++ (last ∷ [])
unfolding end_lines
end_lines-join p [] last h ne = rw (h.0.1, ne)
end_lines-join p (q ∷ ps) last h ne = rw (h.0.1, end_lines-join q ps last h.1 ne)

-- The lines of joined lines, where the last is not empty.
pub lines-join :
    (p : Text) (ps : List Text) (last : Text)
    → All IsLine (p ∷ ps ++ (last ∷ []))
    → All IsLine (p ∷ ps)
    → is_empty last ≡ false
    → lines (join (b'\n' ∷ []) (p ∷ ps ++ (last ∷ []))) ≡ p ∷ ps ++ (last ∷ [])
unfolding lines
lines-join p ps last h k ne =
    ap end_lines (split-join p (ps ++ (last ∷ [])) h) ∙ end_lines-join p ps last k ne

join-cons_head :
    (sep : Text) (x : ℕ) (p : Text) (ps : List Text)
    → join sep ((x ∷ p) ∷ ps) ≡ x ∷ join sep (p ∷ ps)
unfolding join
join-cons_head sep x p [] = refl
join-cons_head sep x p (q ∷ ps) = refl

pub join-split : (c : ℕ) (s : Text) → join (c ∷ []) (split c s) ≡ s
unfolding split join
join-split c [] = refl
join-split c (x ∷ s) =
    let (p, ps, e) = split-nonempty c s in
    let ih = join-split c s in
    elim (Bool-cases (x == c)) [
      | inl h ↦ rw (h, e) (cc ((==_iff x c).0 h, e, ih))
      | inr h ↦ rw (h, e) (join-cons_head (c ∷ []) x p ps ∙ ap (◌∷◌ x) (rw e at ih))
    ]

end_lines-closed :
    (p : Text) (ps : List Text) → All IsLine (p ∷ ps) → end_lines (p ∷ ps ++ ([] ∷ [])) ≡ p ∷ ps
unfolding end_lines
end_lines-closed p [] h = rw h.0.1
end_lines-closed p (q ∷ ps) h = rw (h.0.1, end_lines-closed q ps h.1)

-- The lines of a text that ends in a newline.
pub lines-closed :
    (p : Text) (ps : List Text)
    → All IsLine (p ∷ ps)
    → lines (join (b'\n' ∷ []) (p ∷ ps) ++ (b'\n' ∷ [])) ≡ p ∷ ps
unfolding lines
lines-closed p ps h =
    ap end_lines (
      split-append b'\n' (join (b'\n' ∷ []) (p ∷ ps)) []
      ∙ ap (λ qs. qs ++ split b'\n' []) (split-join p ps h))
    ∙ unfold split in end_lines-closed p ps h
