-- ===== src/Policy.antt =====
-- crates/custodly-core/src/policy.rs: the answer of `policy()` for a provider and a scope.
pub mod Gate
pub mod Meaning
pub mod Subset
pub mod Scopes
use custodly.Prelude.{
  Bool, true, false, List, [], ◌∷◌, ◌++◌, Option, none, some, if◌then◌else◌, is_some, not,
}
use custodly.Text.{Text, codes, eq_text}
use custodly.Tier.{ScopeAssessment, score, as_u8, is_tier2, Tier}
use custodly.Tier.Scope.{assess_github_scope}
use custodly.Contract.{PolicyResponse, ContractRequirement}

abbrev pub onboarding_complete : ContractRequirement
onboarding_complete = codes "onboarding_complete"

abbrev pub gate_human_approval : ContractRequirement
gate_human_approval = codes "gate:human_approval"

-- The provider dispatch.
unfoldable pub assess : Text → Text → Option ScopeAssessment
assess provider scope =
    if eq_text provider (codes "github") then assess_github_scope scope else none

abbrev pub push_if :
    Bool → ContractRequirement → List ContractRequirement → List ContractRequirement
push_if b r requires = if b then requires ++ (r ∷ []) else requires

unfoldable pub evaluate : Text → Text → PolicyResponse
evaluate provider scope =
    let assessment = assess provider scope in
    let tier = score assessment in
    record {
      tier = as_u8 tier;
      requires =
          push_if (is_tier2 tier) gate_human_approval
            (push_if (not (is_some assessment)) onboarding_complete []);
    }
