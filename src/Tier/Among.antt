-- ===== src/Tier/Among.antt =====
-- The pairs of scopes that are asked for together.
use custodly.Prelude.{◌≡◌, refl, List, [], ◌∷◌, ◌++◌, All, Any, All-append, inl, inr}
use custodly.Text.{Text, split}
use custodly.Text.Split.{split-append}
use custodly.Tier.Subset.{AreAmong, Any-AreAmong}

-- Two scopes asked for together.
abbrev pub joined : Text → Text → Text
joined s t = s ++ (b',' ∷ t)

Any-append_left : (P : Text → Type 0) (ps qs : List Text) → Any P ps → Any P (ps ++ qs)
Any-append_left P [] qs h = absurd h
Any-append_left P (p ∷ ps) qs h = elim h [
  | inl here ↦ inl here
  | inr later ↦ inr (Any-append_left P ps qs later)
]

Any-append_right : (P : Text → Type 0) (ps qs : List Text) → Any P qs → Any P (ps ++ qs)
Any-append_right P [] qs h = h
Any-append_right P (p ∷ ps) qs h = inr (Any-append_right P ps qs h)

All-imp : {P Q : Text → Type 0} (ps : List Text) → ((p : Text) → P p → Q p) → All P ps → All Q ps
All-imp [] f h = tt
All-imp (p ∷ ps) f h = (f p h.0, All-imp ps f h.1)

AreAmong-left : (ps qs rs : List Text) → AreAmong ps qs → AreAmong ps (qs ++ rs)
AreAmong-left ps qs rs = All-imp ps (λ p. Any-append_left (λ q. q ≡ p) qs rs)

AreAmong-right : (ps qs rs : List Text) → AreAmong ps rs → AreAmong ps (qs ++ rs)
AreAmong-right ps qs rs = All-imp ps (λ p. Any-append_right (λ q. q ≡ p) qs rs)

pub AreAmong-refl : (ps : List Text) → AreAmong ps ps
AreAmong-refl [] = tt
AreAmong-refl (p ∷ ps) = (inl refl, All-imp ps (λ q m. inr m) (AreAmong-refl ps))

-- The pairs of two scopes that are asked for together are those of both.
pub joined_among :
    (s t u : Text)
    → AreAmong (split b',' s) (split b',' u)
    → AreAmong (split b',' t) (split b',' u)
    → AreAmong (split b',' (joined s t)) (split b',' u)
joined_among s t u h k = rw (split-append b',' s t) (All-append _ (split b',' s) (split b',' t) h k)

pub among_left : (s t : Text) → AreAmong (split b',' s) (split b',' (joined s t))
among_left s t =
    rw (split-append b',' s t)
      (AreAmong-left (split b',' s) (split b',' s) (split b',' t) (AreAmong-refl (split b',' s)))

pub among_right : (s t : Text) → AreAmong (split b',' t) (split b',' (joined s t))
among_right s t =
    rw (split-append b',' s t)
      (AreAmong-right (split b',' t) (split b',' s) (split b',' t) (AreAmong-refl (split b',' t)))

pub AreAmong-trans : (ps qs rs : List Text) → AreAmong ps qs → AreAmong qs rs → AreAmong ps rs
AreAmong-trans ps qs rs h k = All-imp ps (λ p. Any-AreAmong (λ q. q ≡ p) qs rs k) h

pub joined_among_joined :
    (s t s' t' : Text)
    → AreAmong (split b',' s) (split b',' s')
    → AreAmong (split b',' t) (split b',' t')
    → AreAmong (split b',' (joined s t)) (split b',' (joined s' t'))
joined_among_joined s t s' t' h k =
    joined_among s t (joined s' t')
      (AreAmong-trans (split b',' s) (split b',' s') (split b',' (joined s' t')) h
        (among_left s' t'))
      (AreAmong-trans (split b',' t) (split b',' t') (split b',' (joined s' t')) k
        (among_right s' t'))
