-- ===== src/Tier/Subset.antt =====
-- Scopes whose pairs are among those of another scope.
use custodly.Prelude.{
  ◌≡◌, ◌≤◌, ◌↔◌, refl, sym, ap, List, [], ◌∷◌, none, arith, All, Any, inl, inr, Option-cases,
  Bool-cases, is_empty, subst,
}
use custodly.Text.{Text, split, trim}
use custodly.Tier.{score, as_u8}
use custodly.Tier.Order.{as_u8-max_tier}
use custodly.Tier.Pairs.{pair_tier, worst, assess_pair-merge, merge}
use custodly.Tier.Scope.{Flags, start, assess_pair, assess_pairs, assess_github_scope}
use custodly.Tier.Widen.{assess_pairs_blank, score-worst}

-- Every text of the first list is one of the second; their order and number do not matter.
abbrev pub AreAmong : List Text → List Text → Type 0
AreAmong ps qs = All (λ p. Any (λ q. q ≡ p) qs) ps

Any-among : (P : Text → Type 0) (p : Text) (qs : List Text) → Any (λ q. q ≡ p) qs → P p → Any P qs
Any-among P p [] h w = h
Any-among P p (q ∷ qs) h w = elim h [
  | inl e ↦ inl (subst P (sym e) w)
  | inr m ↦ inr (Any-among P p qs m w)
]

pub Any-AreAmong : (P : Text → Type 0) (ps qs : List Text) → AreAmong ps qs → Any P ps → Any P qs
Any-AreAmong P [] qs h w = absurd w
Any-AreAmong P (p ∷ ps) qs h w = elim w [
  | inl here ↦ Any-among P p qs h.0 here
  | inr later ↦ Any-AreAmong P ps qs h.1 later
]

pair_tier_le :
    (p : Text) (qs : List Text) → Any (λ q. q ≡ p) qs → as_u8 (pair_tier p) ≤ as_u8 (worst qs)
pair_tier_le p [] h = absurd h
pair_tier_le p (q ∷ qs) h = elim h [
  | inl e ↦ omega (arith, as_u8-max_tier (pair_tier q) (worst qs), ap (λ r. as_u8 (pair_tier r)) e)
  | inr m ↦ omega (arith, as_u8-max_tier (pair_tier q) (worst qs), pair_tier_le p qs m)
]

worst_le : (ps qs : List Text) → AreAmong ps qs → as_u8 (worst ps) ≤ as_u8 (worst qs)
unfolding as_u8
worst_le [] qs h = omega arith
worst_le (p ∷ ps) qs h =
    omega
      (arith, as_u8-max_tier (pair_tier p) (worst ps), pair_tier_le p qs h.0, worst_le ps qs h.1)

-- A scope all of whose pairs are pairs of another one has no higher tier.
pub score_subset :
    (s t : Text)
    → AreAmong (split b',' s) (split b',' t)
    → as_u8 (score (assess_github_scope s)) ≤ as_u8 (score (assess_github_scope t))
score_subset s t h = rw (score-worst s, score-worst t) (worst_le (split b',' s) (split b',' t) h)

-- The loop ends without a result exactly if a pair on its own has none.
pub assess_pairs-eq_none :
    (ps : List Text) (f : Flags)
    → (assess_pairs ps f ≡ none) ↔ Any (λ p. assess_pair p start ≡ none) ps
unfolding assess_pairs
assess_pairs-eq_none [] f = ground arith
assess_pairs-eq_none (p ∷ ps) f = elim (Option-cases (assess_pair p start)) [
  | inl e ↦ (λ _. inl e, λ _. rw (assess_pair-merge p f, e))
  | inr (g, e) ↦
      rw (assess_pair-merge p f, e) (let rest = assess_pairs-eq_none ps (merge f g) in ground arith)
]

-- A scope is unclassified exactly if some pair of it is; a blank scope is one pair that is not.
pub assess_github_scope-eq_none :
    (s : Text)
    → (assess_github_scope s ≡ none) ↔ Any (λ p. assess_pair p start ≡ none) (split b',' s)
unfolding assess_github_scope
assess_github_scope-eq_none s =
    let loop = assess_pairs-eq_none (split b',' s) start in
    elim (Bool-cases (is_empty (trim s))) [
      | inl blank ↦ rw blank (λ _. loop.0 (assess_pairs_blank s blank), λ _. refl)
      | inr ne ↦ elim (Option-cases (assess_pairs (split b',' s) start)) [
        | inl e ↦ rw (ne, e) (λ _. loop.0 e, λ _. refl)
        | inr (f, e) ↦ rw (ne, e) (λ x. cc, λ a. cc (loop.1 a, e))
      ]
    ]
