-- ===== src/Policy/Gate.antt =====
-- What a policy answer asks for, and how answers for larger scopes compare.
use custodly.Prelude.{
  ◌≡◌, ◌↔◌, ◌≤◌, refl, ◌∙◌, ap, Bool, true, [], ◌∷◌, ◌++◌, Option, none, arith, Any,
}
use mathlib.Core.Logic.{◌≢◌}
use Prim.Native.Nat.{max}
use custodly.Text.{Text, codes, eq_text}
use custodly.Text.Equality.{eq_text_refl, ne_of_test}
use custodly.Tier.{ScopeAssessment, Tier, score, as_u8, is_tier2}
use custodly.Tier.Order.{as_u8-max_tier}
use custodly.Tier.Widen.{score-append}
use custodly.Tier.Scope.{assess_github_scope}
use custodly.Contract.{PolicyResponse, ContractRequirement}
use custodly.Policy.{
  assess, evaluate, onboarding_complete, gate_human_approval, not, push_if, is_some,
}

abbrev pub Asks : ContractRequirement → PolicyResponse → Type 0
Asks r response = Any (λ x. x ≡ r) response.requires

onboarding-ne-gate : onboarding_complete ≢ gate_human_approval
unfolding eq_text
onboarding-ne-gate = ne_of_test onboarding_complete gate_human_approval refl

-- Of two different requirements, each is asked for exactly if its own test pushed it.
asks_pushed :
    (r s : ContractRequirement) (o g : Bool)
    → r ≢ s
    → (Any (λ x. x ≡ s) (push_if g s (push_if o r [])) ↔ (g ≡ true))
      × (Any (λ x. x ≡ r) (push_if g s (push_if o r [])) ↔ (o ≡ true))
asks_pushed r s o g ne = ground arith

pub as_u8_le : (t : Tier) → as_u8 t ≤ 2
unfolding as_u8
as_u8_le t = ground arith

pub is_tier2_iff : (t : Tier) → (is_tier2 t ≡ true) ↔ (as_u8 t ≡ 2)
unfolding as_u8
is_tier2_iff t = ground arith

none_iff : (o : Option ScopeAssessment) → (not (is_some o) ≡ true) ↔ (o ≡ none)
none_iff o = ground arith

none-is_tier2 : (o : Option ScopeAssessment) → o ≡ none → is_tier2 (score o) ≡ true
unfolding score
none-is_tier2 o h = rw h

-- The answer is a tier of the wire, asks for human approval exactly at tier 2, and asks for
-- onboarding exactly if no adapter classifies the scope; that also makes it tier 2.
pub evaluate_gate :
    (provider scope : Text)
    → let response = evaluate provider scope in
      (response.tier ≤ 2)
      × (Asks gate_human_approval response ↔ (response.tier ≡ 2))
      × (Asks onboarding_complete response ↔ (assess provider scope ≡ none))
      × (Asks onboarding_complete response → Asks gate_human_approval response)
unfolding evaluate
evaluate_gate provider scope =
    let o = assess provider scope in
    let (gate, onboarding) =
      asks_pushed onboarding_complete gate_human_approval (not (is_some o)) (is_tier2 (score o))
        onboarding-ne-gate in
    (
      as_u8_le (score o),
      (λ a. (is_tier2_iff (score o)).0 (gate.0 a), λ e. gate.1 ((is_tier2_iff (score o)).1 e)),
      (λ a. (none_iff o).0 (onboarding.0 a), λ e. onboarding.1 ((none_iff o).1 e)),
      λ a. gate.1 (none-is_tier2 o ((none_iff o).0 (onboarding.0 a))),
    )

-- Asking GitHub for two scopes at once answers with the higher of their tiers.
evaluate-append :
    (s t : Text)
    → (evaluate (codes "github") (s ++ (b',' ∷ t))).tier
      ≡ max (evaluate (codes "github") s).tier (evaluate (codes "github") t).tier
unfolding evaluate assess
evaluate-append s t = rw (eq_text_refl (codes "github")) (
    ap as_u8 (score-append s t)
    ∙ as_u8-max_tier (score (assess_github_scope s)) (score (assess_github_scope t)))
