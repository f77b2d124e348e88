-- ===== src/Tests/Tier.antt =====
-- Scopes and tiers.
use custodly.Prelude.{◌≡◌, ◌↔◌, refl, true, List, none, some}
use custodly.Text.{
  codes, trim, split, contains, trim_start, trim_end, is_whitespace, split_once, starts_with,
  eq_text,
}
use custodly.Tier.{
  ScopeAssessment, irreversible, shared, can_move_money, tier0, tier1, tier2, score,
}
use custodly.Tier.Scope.{
  assess_github_scope, assess_pairs, assess_pair, apply_grant, apply_level, apply_resource,
  is_bounded, is_sensitive,
}
use custodly.Tier.Grants.{Grant}
use custodly.Tier.Summary.{Describes, summary, assess_iff}

-- The tests of tier.rs.
scores :
    (score (assess_github_scope (codes "repo:read,issues:read")) ≡ tier0)
    × (score (assess_github_scope (codes "repo:read, pr : write")) ≡ tier1)
    × (score (assess_github_scope (codes "admin:read")) ≡ tier2)
    × (assess_github_scope (codes "nuclear_launch:write") ≡ none)
    × (assess_github_scope (codes "") ≡ none)
    × (assess_github_scope (codes "repo") ≡ none)
    × (assess_github_scope (codes "repo:delete") ≡ none)
    × (assess_github_scope (codes "repo:read,") ≡ none)
unfolding assess_github_scope assess_pairs assess_pair apply_grant apply_level apply_resource
    is_bounded is_sensitive score trim trim_start trim_end is_whitespace split split_once contains
    starts_with eq_text
scores = (refl, refl, refl, refl, refl, refl, refl, refl)

abbrev billing : ScopeAssessment
billing = record {
  reversibility = irreversible;
  blast_radius = shared;
  financial_exposure = can_move_money;
  read_only = true;
}

billing_is : assess_github_scope (codes " billing :read,repo:read") ≡ some billing
unfolding assess_github_scope assess_pairs assess_pair apply_grant apply_level apply_resource
    is_bounded is_sensitive trim trim_start trim_end is_whitespace split split_once contains
    starts_with eq_text
billing_is = refl

assess_iff_example :
    (assess_github_scope (codes " billing :read,repo:read") ≡ some billing)
    ↔ ((gs : List Grant) × Describes (codes " billing :read,repo:read") gs × (billing ≡ summary gs))
assess_iff_example = assess_iff (codes " billing :read,repo:read") billing
