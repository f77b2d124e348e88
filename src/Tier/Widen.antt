-- ===== src/Tier/Widen.antt =====
-- Scope strings and tiers: the tier of a scope is that of its worst pair.
use custodly.Prelude.{
  ◌≡◌, refl, ◌∙◌, sym, ap, true, [], ◌∷◌, ◌++◌, some, arith, Option-cases, Bool-cases, inl, inr,
  is_empty, none,
}
use custodly.Text.{Text, codes, trim, split, split_once, has, contains, is_whitespace}
use custodly.Text.Trim.{has-trim}
use custodly.Text.Split.{split-whole, split-append}
use custodly.Tier.{score}
use custodly.Tier.Order.{max_tier}
use custodly.Tier.Billing.{billing_trips}
use custodly.Tier.Pairs.{flags_tier, worst, assess_pairs-worst, worst-append}
use custodly.Tier.Scope.{Flags, assessment, start, assess_pair, assess_pairs, assess_github_scope}

trim-eq-nil : (s : Text) → is_empty (trim s) ≡ true → trim s ≡ []
trim-eq-nil s h = ground arith

-- A blank scope is one pair with no colon, which the loop refuses as well.
pub assess_pairs_blank :
    (s : Text) → is_empty (trim s) ≡ true → assess_pairs (split b',' s) start ≡ none
unfolding assess_pairs assess_pair split_once is_whitespace has
assess_pairs_blank s h =
    let blank = trim-eq-nil s h in
    rw (split-whole b',' s (sym (has-trim b',' s refl) ∙ ap (has b',') blank), blank)

accepted :
    (s : Text) (f : Flags)
    → (contains (codes "billing") s ≡ true → f.trips ≡ true)
    → score (some (assessment f s)) ≡ flags_tier (some f)
unfolding score
accepted s f h = ground arith

-- The tier of a scope string is the worst tier of its pairs.
pub score-worst : (s : Text) → score (assess_github_scope s) ≡ worst (split b',' s)
unfolding assess_github_scope score
score-worst s = elim (Bool-cases (is_empty (trim s))) [
  | inl blank ↦
      rw blank
        (ap flags_tier (sym (assess_pairs_blank s blank)) ∙ assess_pairs-worst (split b',' s))
  | inr ne ↦ elim (Option-cases (assess_pairs (split b',' s) start)) [
    | inl e ↦ rw (ne, e) (ap flags_tier (sym e) ∙ assess_pairs-worst (split b',' s))
    | inr (f, e) ↦
        rw (ne, e)
          (accepted s f (billing_trips s e)
            ∙ ap flags_tier (sym e)
            ∙ assess_pairs-worst (split b',' s))
  ]
]

-- Two scopes asked for together score the higher of their tiers: adding pairs to a scope never
-- lowers its tier, and nothing but its pairs raises it.
pub score-append :
    (s t : Text)
    → score (assess_github_scope (s ++ (b',' ∷ t)))
      ≡ max_tier (score (assess_github_scope s)) (score (assess_github_scope t))
score-append s t =
    rw (score-worst (s ++ (b',' ∷ t)), score-worst s, score-worst t, split-append b',' s t)
      (worst-append (split b',' s) (split b',' t))
