-- ===== src/Unit/Policy.antt =====
-- The tests of crates/custodly-core/src/policy.rs.
use custodly.Prelude.{◌≡◌, refl, [], ◌∷◌}
use custodly.Text.{
  codes, trim, trim_start, trim_end, is_whitespace, split, split_once, contains, starts_with,
  eq_text,
}
use custodly.Tier.{score, as_u8}
use custodly.Tier.Scope.{
  assess_github_scope, assess_pairs, assess_pair, apply_grant, apply_level, apply_resource,
  is_bounded, is_sensitive,
}
use custodly.Policy.{assess, evaluate}

abbrev pub KnownGithubReadOnlyScopeIsTier0WithNoRequirements : Type 0
KnownGithubReadOnlyScopeIsTier0WithNoRequirements =
    let response = evaluate (codes "github") (codes "repo:read") in
    (response.tier ≡ 0) × (response.requires ≡ [])

abbrev pub KnownGithubWriteScopeIsTier1 : Type 0
KnownGithubWriteScopeIsTier1 =
    let response = evaluate (codes "github") (codes "pr:write") in
    (response.tier ≡ 1) × (response.requires ≡ [])

abbrev pub GithubAdminScopeRequiresHumanApproval : Type 0
GithubAdminScopeRequiresHumanApproval =
    let response = evaluate (codes "github") (codes "admin:write") in
    (response.tier ≡ 2) × (response.requires ≡ codes "gate:human_approval" ∷ [])

abbrev pub UnknownProviderFailsClosedWithOnboardingAndApproval : Type 0
UnknownProviderFailsClosedWithOnboardingAndApproval =
    let response = evaluate (codes "stripe") (codes "charges:read") in
    (response.tier ≡ 2)
    × (response.requires ≡ codes "onboarding_complete" ∷ codes "gate:human_approval" ∷ [])

abbrev pub UnparseableGithubScopeFailsClosedTheSameWay : Type 0
UnparseableGithubScopeFailsClosedTheSameWay =
    let response = evaluate (codes "github") (codes "not-a-valid-scope") in
    (response.tier ≡ 2)
    × (response.requires ≡ codes "onboarding_complete" ∷ codes "gate:human_approval" ∷ [])

policies_pass :
    KnownGithubReadOnlyScopeIsTier0WithNoRequirements × KnownGithubWriteScopeIsTier1
    × GithubAdminScopeRequiresHumanApproval × UnknownProviderFailsClosedWithOnboardingAndApproval
    × UnparseableGithubScopeFailsClosedTheSameWay
unfolding evaluate assess as_u8 assess_github_scope assess_pairs assess_pair apply_grant apply_level
    apply_resource is_bounded is_sensitive score trim trim_start trim_end is_whitespace split
    split_once contains starts_with eq_text
policies_pass = ((refl, refl), (refl, refl), (refl, refl), (refl, refl), (refl, refl))
