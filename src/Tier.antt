-- ===== src/Tier.antt =====
-- crates/custodly-core/src/tier.rs: the scoring model. The axes, the assessment and `Tier::score`
-- stand here, `assess_github_scope` in Tier/Scope.antt.
pub mod Scope
pub mod Order
pub mod Pairs
pub mod Billing
pub mod Grants
pub mod Assess
pub mod Summary
pub mod Widen
pub mod Subset
pub mod Among
use mathlib.Core.Option.{Option}
use custodly.Prelude.{ℕ, Bool, true, false, ◌||◌, if◌then◌else◌}

pub data Reversibility : Type 0 where
  reversible irreversible : Reversibility

pub data BlastRadius : Type 0 where
  own shared : BlastRadius

pub data FinancialExposure : Type 0 where
  none can_move_money : FinancialExposure

pub record ScopeAssessment : Type 0 where
  pub reversibility : Reversibility
  pub blast_radius : BlastRadius
  pub financial_exposure : FinancialExposure
  pub read_only : Bool

pub data Tier : Type 0 where
  tier0 tier1 tier2 : Tier

-- The derived `==` against one constructor of each axis.
abbrev pub is_irreversible : Reversibility → Bool
is_irreversible reversible = false
is_irreversible irreversible = true

abbrev pub is_shared : BlastRadius → Bool
is_shared own = false
is_shared shared = true

abbrev pub is_can_move_money : FinancialExposure → Bool
is_can_move_money FinancialExposure.none = false
is_can_move_money can_move_money = true

abbrev pub is_tier2 : Tier → Bool
is_tier2 tier2 = true
is_tier2 _ = false

abbrev pub trips_tier2 : ScopeAssessment → Bool
trips_tier2 a =
    is_irreversible a.reversibility
    || is_shared a.blast_radius
    || is_can_move_money a.financial_exposure

-- `Tier::score`: an unclassified scope is tier 2.
unfoldable pub score : Option ScopeAssessment → Tier
score Option.none = tier2
score (Option.some a) = if trips_tier2 a then tier2 else if a.read_only then tier0 else tier1

-- `Tier::as_u8`.
unfoldable pub as_u8 : Tier → ℕ
as_u8 tier0 = 0
as_u8 tier1 = 1
as_u8 tier2 = 2
