-- ===== src/Tier/Order.antt =====
-- Tiers as an order, and scoring as a map that respects the risk order of assessments.
use custodly.Prelude.{◌≤◌, ◌≡◌, refl, Bool, true, Option, none, some, arith}
use Prim.Native.Nat.{max}
use custodly.Tier.{
  Tier, tier0, tier1, tier2, ScopeAssessment, is_irreversible, is_shared, is_can_move_money, score,
  as_u8,
}

-- The derived `Ord`: by the order of declaration.
abbrev pub max_tier : Tier → Tier → Tier
max_tier tier0 t = t
max_tier tier1 tier0 = tier1
max_tier tier1 t = t
max_tier tier2 t = tier2

pub max_tier_assoc : (a b c : Tier) → max_tier (max_tier a b) c ≡ max_tier a (max_tier b c)
max_tier_assoc tier0 b c = refl
max_tier_assoc tier1 b c = ground arith
max_tier_assoc tier2 b c = refl

pub max_tier2 : (a : Tier) → max_tier a tier2 ≡ tier2
max_tier2 a = ground arith

pub as_u8-max_tier : (a b : Tier) → as_u8 (max_tier a b) ≡ max (as_u8 a) (as_u8 b)
unfolding as_u8
as_u8-max_tier a b = ground arith

abbrev pub Implies : Bool → Bool → Type 0
Implies a b = a ≡ true → b ≡ true

-- `a` is no riskier than `b`: it trips no wire that `b` does not trip, and writes only if `b`
-- does. An unclassified scope is the riskiest.
abbrev pub RiskLe : Option ScopeAssessment → Option ScopeAssessment → Type 0
RiskLe a none = Unit
RiskLe none (some b) = ⊥
RiskLe (some a) (some b) =
    Implies (is_irreversible a.reversibility) (is_irreversible b.reversibility)
    × Implies (is_shared a.blast_radius) (is_shared b.blast_radius)
    × Implies (is_can_move_money a.financial_exposure) (is_can_move_money b.financial_exposure)
    × Implies b.read_only a.read_only

-- A riskier assessment never scores a lower tier, on the wire.
score_mono : (a b : Option ScopeAssessment) → RiskLe a b → as_u8 (score a) ≤ as_u8 (score b)
unfolding score as_u8
score_mono a none h = ground arith
score_mono none (some b) h = elim h [ ]
score_mono (some a) (some b) h = ground arith
