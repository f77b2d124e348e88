-- ===== src/Policy/Subset.antt =====
-- The policy answer depends on the set of a scope's pairs only.
use custodly.Prelude.{◌≡◌, ◌≤◌, Bool-cases, arith, none, inl, inr}
use custodly.Text.{Text, codes, eq_text, split}
use custodly.Tier.Scope.{assess_pair, start}
use custodly.Tier.Subset.{AreAmong, Any-AreAmong, score_subset, assess_github_scope-eq_none}
use custodly.Policy.{assess, evaluate, onboarding_complete, gate_human_approval}
use custodly.Policy.Gate.{Asks, evaluate_gate}

pub tier_subset :
    (provider s t : Text)
    → AreAmong (split b',' s) (split b',' t)
    → (evaluate provider s).tier ≤ (evaluate provider t).tier
unfolding evaluate assess
tier_subset provider s t h = elim (Bool-cases (eq_text provider (codes "github"))) [
  | inl e ↦ rw e (score_subset s t h)
  | inr ne ↦ rw ne (omega arith)
]

pub assess_subset :
    (provider s t : Text)
    → AreAmong (split b',' s) (split b',' t)
    → assess provider s ≡ none
    → assess provider t ≡ none
unfolding assess
assess_subset provider s t h w = elim (Bool-cases (eq_text provider (codes "github"))) [
  | inl e ↦ rw e (
      (assess_github_scope-eq_none t).1 (
        Any-AreAmong (λ p. assess_pair p start ≡ none) (split b',' s) (split b',' t) h
          ((assess_github_scope-eq_none s).0 (rw e at w))))
  | inr ne ↦ rw ne
]

-- If every comma-separated pair of one scope is a pair of another, in whatever order and however
-- often, then for every provider the answer for the one has no higher tier than the answer for
-- the other, and asks for nothing that the other does not ask for.
evaluate_subset :
    (provider s t : Text)
    → AreAmong (split b',' s) (split b',' t)
    → let small = evaluate provider s in
      let large = evaluate provider t in
      (small.tier ≤ large.tier)
      × (Asks gate_human_approval small → Asks gate_human_approval large)
      × (Asks onboarding_complete small → Asks onboarding_complete large)
evaluate_subset provider s t h =
    let (_, gate_s, onboarding_s, _) = evaluate_gate provider s in
    let (le_t, gate_t, onboarding_t, _) = evaluate_gate provider t in
    let le = tier_subset provider s t h in
    (
      le,
      λ a. gate_t.1 (omega (arith, le, le_t, gate_s.0 a)),
      λ a. onboarding_t.1 (assess_subset provider s t h (onboarding_s.0 a)),
    )
