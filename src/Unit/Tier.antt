-- ===== src/Unit/Tier.antt =====
-- The tests of crates/custodly-core/src/tier.rs.
use custodly.Prelude.{Bool, true, false, ◌≡◌, ◌<◌, refl, none, some, arith}
use custodly.Text.{
  codes, trim, trim_start, trim_end, is_whitespace, split, split_once, contains, starts_with,
  eq_text,
}
use custodly.Tier.{
  ScopeAssessment, FinancialExposure, reversible, irreversible, own, shared, can_move_money, tier0,
  tier1, tier2, score, as_u8,
}
use custodly.Tier.Scope.{
  assess_github_scope, assess_pairs, assess_pair, apply_grant, apply_level, apply_resource,
  is_bounded, is_sensitive,
}

abbrev pub reversible_own_no_money : Bool → ScopeAssessment
reversible_own_no_money read_only = record {
  reversibility = reversible;
  blast_radius = own;
  financial_exposure = FinancialExposure.none;
  read_only = read_only;
}

abbrev pub UnknownScopeFailsClosedToTier2 : Type 0
UnknownScopeFailsClosedToTier2 = score none ≡ tier2

abbrev pub AnySingleTripWireIsTier2RegardlessOfReadOnly : Type 0
AnySingleTripWireIsTier2RegardlessOfReadOnly =
    (score (some (record (reversible_own_no_money true) { reversibility = irreversible })) ≡ tier2)
    × (score (some (record (reversible_own_no_money true) { blast_radius = shared })) ≡ tier2)
    × (score (some (record (reversible_own_no_money true) { financial_exposure = can_move_money }))
        ≡ tier2)

abbrev pub CompoundingTripWiresAreStillTier2NeverWorse : Type 0
CompoundingTripWiresAreStillTier2NeverWorse =
    score (
      some (record {
        reversibility = irreversible;
        blast_radius = shared;
        financial_exposure = can_move_money;
        read_only = true;
      }))
    ≡ tier2

abbrev pub BoundedAndReadOnlyIsTier0 : Type 0
BoundedAndReadOnlyIsTier0 = score (some (reversible_own_no_money true)) ≡ tier0

abbrev pub BoundedAndWriteIsTier1 : Type 0
BoundedAndWriteIsTier1 = score (some (reversible_own_no_money false)) ≡ tier1

-- The derived order is that of the numbers.
abbrev pub TierOrderingReadsAsMoreSensitive : Type 0
TierOrderingReadsAsMoreSensitive = (as_u8 tier0 < as_u8 tier1) × (as_u8 tier1 < as_u8 tier2)

abbrev pub AsU8MatchesTheWireConventionInBoundaryV1 : Type 0
AsU8MatchesTheWireConventionInBoundaryV1 = (as_u8 tier0 ≡ 0) × (as_u8 tier1 ≡ 1) × (as_u8 tier2 ≡ 2)

abbrev pub GithubReadOnlyScopeIsTier0 : Type 0
GithubReadOnlyScopeIsTier0 =
    (a : ScopeAssessment) × (assess_github_scope (codes "repo:read,issues:read") ≡ some a)
    × (score (some a) ≡ tier0)

abbrev pub GithubScopeWithAWriteIsTier1 : Type 0
GithubScopeWithAWriteIsTier1 =
    (a : ScopeAssessment) × (assess_github_scope (codes "repo:read,pr:write") ≡ some a)
    × (score (some a) ≡ tier1)

abbrev pub GithubAdminScopeIsAlwaysTier2 : Type 0
GithubAdminScopeIsAlwaysTier2 =
    (a : ScopeAssessment) × (assess_github_scope (codes "admin:read") ≡ some a)
    × (score (some a) ≡ tier2)

abbrev pub GithubBillingScopeIsTier2WithFinancialExposure : Type 0
GithubBillingScopeIsTier2WithFinancialExposure =
    (a : ScopeAssessment) × (assess_github_scope (codes "billing:read") ≡ some a)
    × (a.financial_exposure ≡ can_move_money)
    × (score (some a) ≡ tier2)

abbrev pub GithubUnrecognizedResourceFailsClosed : Type 0
GithubUnrecognizedResourceFailsClosed = assess_github_scope (codes "nuclear_launch:write") ≡ none

abbrev pub GithubEmptyOrMalformedScopeFailsClosed : Type 0
GithubEmptyOrMalformedScopeFailsClosed =
    (assess_github_scope (codes "") ≡ none)
    × (assess_github_scope (codes "repo") ≡ none)
    × (assess_github_scope (codes "repo:delete") ≡ none)

tiers_pass :
    UnknownScopeFailsClosedToTier2 × AnySingleTripWireIsTier2RegardlessOfReadOnly
    × CompoundingTripWiresAreStillTier2NeverWorse × BoundedAndReadOnlyIsTier0
    × BoundedAndWriteIsTier1 × TierOrderingReadsAsMoreSensitive
    × AsU8MatchesTheWireConventionInBoundaryV1
unfolding score as_u8
tiers_pass =
    (refl, (refl, refl, refl), refl, refl, refl, (omega arith, omega arith), (refl, refl, refl))

scopes_pass :
    GithubReadOnlyScopeIsTier0 × GithubScopeWithAWriteIsTier1 × GithubAdminScopeIsAlwaysTier2
    × GithubBillingScopeIsTier2WithFinancialExposure × GithubUnrecognizedResourceFailsClosed
    × GithubEmptyOrMalformedScopeFailsClosed
unfolding assess_github_scope assess_pairs assess_pair apply_grant apply_level apply_resource
    is_bounded is_sensitive score trim trim_start trim_end is_whitespace split split_once contains
    starts_with eq_text
scopes_pass = (
  (_, refl, refl),
  (_, refl, refl),
  (_, refl, refl),
  (_, refl, refl, refl),
  refl,
  (refl, refl, refl),
)
