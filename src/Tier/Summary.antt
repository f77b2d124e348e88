-- ===== src/Tier/Summary.antt =====
-- The assessment of a list of grants, and the proof that `assess_github_scope` gives it.
use custodly.Prelude.{
  ◌≡◌, refl, ◌∙◌, sym, ap, Bool, true, false, ◌&&◌, ◌||◌, List, [], ◌∷◌, some, All, is_empty, arith,
  inl, inr, Bool-cases, Option-cases, if◌then◌else◌, ◌↔◌,
}
use mathlib.Core.Option.{some-injective}
use custodly.Text.{Text, codes, eq_text, split, contains, has, trim, is_whitespace}
use custodly.Text.Trim.{has-trim}
use custodly.Text.Equality.{eq_text_iff}
use custodly.Text.Split.{has_piece, has-split, join-split}
use custodly.Text.Contains.{
  has-append, contains-has, contains_piece, contains-join, contains-append_left, contains-trim,
  contains_self,
}
use custodly.Tier.{
  ScopeAssessment, irreversible, reversible, shared, own, can_move_money, FinancialExposure,
}
use custodly.Tier.Scope.{Flags, start, assess_pairs, assess_github_scope, assessment, is_sensitive}
use custodly.Tier.Grants.{
  Grant, IsGrant, IsRecognised, mark, bounded_resources, sensitive_resources, All_of_one,
}
use custodly.Tier.Widen.{assess_pairs_blank}
use custodly.Tier.Assess.{AreGrants, marks, assess_pairs-marks, assess_pairs-eq_some}

abbrev pub any_grant : (Grant → Bool) → List Grant → Bool
any_grant test [] = false
any_grant test (g ∷ gs) = test g || any_grant test gs

abbrev pub all_grants : (Grant → Bool) → List Grant → Bool
all_grants test [] = true
all_grants test (g ∷ gs) = test g && all_grants test gs

abbrev pub is_read : Grant → Bool
is_read g = eq_text g.level (codes "read")

abbrev pub is_billing : Grant → Bool
is_billing g = eq_text g.resource (codes "billing")

abbrev pub trips : Grant → Bool
trips g = is_sensitive g.resource

-- Irreversible and shared if some resource is sensitive, money if one is billing, read-only if
-- every level is.
abbrev pub summary : List Grant → ScopeAssessment
summary gs = record {
  reversibility = if any_grant trips gs then irreversible else reversible;
  blast_radius = if any_grant trips gs then shared else own;
  financial_exposure = if any_grant is_billing gs then can_move_money else FinancialExposure.none;
  read_only = all_grants is_read gs;
}

marks-eq :
    (gs : List Grant) (f : Flags)
    → marks gs f ≡ record {
      read_only = f.read_only && all_grants is_read gs;
      trips = f.trips || any_grant trips gs;
    }
marks-eq [] f = ground arith
marks-eq (g ∷ gs) f = marks-eq gs (mark g f) ∙ ground arith

abbrev BMeansBilling : Text → Type 0
BMeansBilling t = has b'b' t ≡ true → eq_text t (codes "billing") ≡ true

b_means_billing : All BMeansBilling bounded_resources × All BMeansBilling sensitive_resources
unfolding has eq_text
b_means_billing = (
  (λ h. cc, (λ h. cc, (λ h. cc, (λ h. cc, (λ h. cc, (λ h. cc, (λ h. cc, tt))))))),
  (λ h. cc, (λ h. refl, (λ h. cc, tt))),
)

has-IsGrant :
    {p : Text} {g : Grant} → IsGrant p g → has b'b' p ≡ (has b'b' g.resource || has b'b' g.level)
unfolding is_whitespace has
has-IsGrant {p} {g} w =
    sym (has-trim b'b' p refl)
    ∙ ap (has b'b') w.cut
    ∙ has-append b'b' w.before (b':' ∷ w.after)
    ∙ cc (has-trim b'b' w.before refl, has-trim b'b' w.after refl, w.resource_is, w.level_is)

in_resource :
    (g : Grant)
    → IsRecognised g
    → (has b'b' g.resource || has b'b' g.level) ≡ true
    → has b'b' g.resource ≡ true
unfolding has
in_resource g k h = elim k.graded [ inl e ↦ ground arith | inr e ↦ ground arith ]

is_billing_of_has :
    {g : Grant}
    → IsRecognised g
    → (has b'b' g.resource || has b'b' g.level) ≡ true
    → is_billing g ≡ true
unfolding has
is_billing_of_has {g} k h = elim k.known [
  | inl m ↦ All_of_one BMeansBilling bounded_resources b_means_billing.0 m (in_resource g k h)
  | inr m ↦ All_of_one BMeansBilling sensitive_resources b_means_billing.1 m (in_resource g k h)
]

any_billing_of_has :
    (ps : List Text) (gs : List Grant)
    → AreGrants ps gs
    → All IsRecognised gs
    → has_piece b'b' ps ≡ true
    → any_grant is_billing gs ≡ true
any_billing_of_has [] gs w k h = cc
any_billing_of_has (p ∷ ps) [] w k h = absurd w
any_billing_of_has (p ∷ ps) (g ∷ gs) w k h = elim (Bool-cases (has b'b' p)) [
  | inl here ↦ rw (is_billing_of_has k.0 (sym (has-IsGrant w.0) ∙ here))
  | inr later ↦ let rest = any_billing_of_has ps gs w.1 k.1 (rw later at h) in ground arith
]

contains_billing :
    {p : Text} {g : Grant} → IsGrant p g → is_billing g ≡ true → contains (codes "billing") p ≡ true
contains_billing {p} {g} w h =
    let named = sym w.resource_is ∙ (eq_text_iff g.resource (codes "billing")).0 h in
    let inside : contains (codes "billing") (trim w.before) ≡ true =
      ap (contains (codes "billing")) named ∙ contains_self (codes "billing") in
    contains-trim b'b' (codes "illing") p (
      ap (contains (codes "billing")) w.cut
      ∙ contains-append_left (codes "billing") w.before (b':' ∷ w.after)
          (contains-trim b'b' (codes "illing") w.before inside))

contains_of_any_billing :
    (ps : List Text) (gs : List Grant)
    → AreGrants ps gs
    → any_grant is_billing gs ≡ true
    → contains_piece (codes "billing") ps ≡ true
contains_of_any_billing ps [] w h = cc
contains_of_any_billing [] (g ∷ gs) w h = absurd w
contains_of_any_billing (p ∷ ps) (g ∷ gs) w h = elim (Bool-cases (is_billing g)) [
  | inl here ↦ rw (contains_billing w.0 here)
  | inr later ↦ let rest = contains_of_any_billing ps gs w.1 (rw later at h) in ground arith
]

eq_of_implies : (a b : Bool) → (a ≡ true → b ≡ true) → (b ≡ true → a ≡ true) → a ≡ b
eq_of_implies a b f g = ground arith

-- The substring test on the whole scope is the test for a billing grant.
billing_eq :
    (s : Text) (gs : List Grant)
    → AreGrants (split b',' s) gs
    → All IsRecognised gs
    → contains (codes "billing") s ≡ any_grant is_billing gs
billing_eq s gs w k =
    eq_of_implies _ _
      (λ h.
        any_billing_of_has (split b',' s) gs w k
          (has-split b',' b'b' s refl ∙ contains-has b'b' (codes "illing") s h))
      (λ h.
        ap (contains (codes "billing")) (sym (join-split b',' s))
        ∙ contains-join (codes "billing") (b',' ∷ []) (split b',' s)
            (contains_of_any_billing (split b',' s) gs w h))

assessment-marks :
    (s : Text) (gs : List Grant)
    → AreGrants (split b',' s) gs
    → All IsRecognised gs
    → assessment (marks gs start) s ≡ summary gs
assessment-marks s gs w k = rw (marks-eq gs start, billing_eq s gs w k)

not_blank :
    (s : Text) {f : Flags} → assess_pairs (split b',' s) start ≡ some f → is_empty (trim s) ≡ false
not_blank s e = elim (Bool-cases (is_empty (trim s))) [
  | inl b ↦ cc (assess_pairs_blank s b)
  | inr n ↦ n
]

-- Every pair of the scope is a recognised grant.
pub record Describes (s : Text) (gs : List Grant) : Type 0 where
  pub pairs : AreGrants (split b',' s) gs
  pub recognised : All IsRecognised gs

pub assess_of_grants :
    (s : Text) (gs : List Grant) → Describes s gs → assess_github_scope s ≡ some (summary gs)
unfolding assess_github_scope
assess_of_grants s gs d =
    let e = assess_pairs-marks (split b',' s) gs start d.pairs d.recognised in
    rw (not_blank s e, e) (ap some (assessment-marks s gs d.pairs d.recognised))

assess_pairs_of_some :
    (s : Text) {a : ScopeAssessment}
    → assess_github_scope s ≡ some a
    → (f : Flags) × (assess_pairs (split b',' s) start ≡ some f)
unfolding assess_github_scope
assess_pairs_of_some s h = elim (Option-cases (assess_pairs (split b',' s) start)) [
  | inl e ↦ ground arith
  | inr (f, e) ↦ (f, e)
]

-- The function accepts a scope exactly if each of its comma-separated pairs is a recognised grant,
-- and then returns what those grants amount to: irreversible and shared if a resource is
-- sensitive, money if one is billing, read-only if every level is `read`.
pub assess_iff :
    (s : Text) (a : ScopeAssessment)
    → (assess_github_scope s ≡ some a) ↔ ((gs : List Grant) × Describes s gs × (a ≡ summary gs))
assess_iff s a = (
  λ h.
      let (f, e) = assess_pairs_of_some s h in
      let (gs, w, k) = assess_pairs-eq_some (split b',' s) start f e in
      let d : Describes s gs = record { pairs = w; recognised = k } in
      (gs, d, some-injective _ _ (sym h ∙ assess_of_grants s gs d)),
  λ (gs, d, e). assess_of_grants s gs d ∙ ap some (sym e),
)
