-- ===== src/Tier/Scope.antt =====
-- `assess_github_scope` of crates/custodly-core/src/tier.rs: the loop over the pairs of a scope
-- string, with its two local variables as a record.
use custodly.Prelude.{
  Bool, true, false, ◌||◌, List, [], ◌∷◌, Option, none, some, if◌then◌else◌, is_empty, ◌>>=◌,
}
use custodly.Text.{Text, codes, eq_text, trim, split, split_once, contains}
use custodly.Tier.{
  ScopeAssessment, reversible, irreversible, own, shared, can_move_money, FinancialExposure,
}

-- `read_only` and `trips_tier2`.
pub record Flags : Type 0 where
  pub read_only : Bool
  pub trips : Bool

abbrev pub start : Flags
start = record { read_only = true; trips = false }

unfoldable pub is_bounded : Text → Bool
is_bounded r =
    eq_text r (codes "repo")
    || eq_text r (codes "pr")
    || eq_text r (codes "issues")
    || eq_text r (codes "contents")
    || eq_text r (codes "metadata")
    || eq_text r (codes "actions")
    || eq_text r (codes "checks")

unfoldable pub is_sensitive : Text → Bool
is_sensitive r =
    eq_text r (codes "admin") || eq_text r (codes "billing") || eq_text r (codes "secrets")

-- The two `match` statements of the loop.
unfoldable pub apply_level : Text → Flags → Option Flags
apply_level level f =
    if eq_text level (codes "read")
    then some f
    else if eq_text level (codes "write")
    then some (record f { read_only = false })
    else none

unfoldable pub apply_resource : Text → Flags → Option Flags
apply_resource resource f =
    if is_bounded resource
    then some f
    else if is_sensitive resource
    then some (record f { trips = true })
    else none

unfoldable pub apply_grant : Text → Text → Flags → Option Flags
apply_grant resource level f =
    if is_empty resource || is_empty level
    then none
    else (apply_level level f >>= apply_resource resource)

-- The body of the loop.
unfoldable pub assess_pair : Text → Flags → Option Flags
unfolding apply_grant
assess_pair pair f = split_once b':' (trim pair) >>= λ p. apply_grant (trim p.0) (trim p.1) f

unfoldable pub assess_pairs : List Text → Flags → Option Flags
assess_pairs [] f = some f
assess_pairs (pair ∷ pairs) f = assess_pair pair f >>= assess_pairs pairs

-- The result of the function.
abbrev pub assessment : Flags → Text → ScopeAssessment
assessment f scope = record {
  reversibility = if f.trips then irreversible else reversible;
  blast_radius = if f.trips then shared else own;
  financial_exposure =
      if contains (codes "billing") scope then can_move_money else FinancialExposure.none;
  read_only = f.read_only;
}

unfoldable pub assess_github_scope : Text → Option ScopeAssessment
assess_github_scope scope =
    if is_empty (trim scope)
    then none
    else (assess_pairs (split b',' scope) start >>= λ f. some (assessment f scope))
