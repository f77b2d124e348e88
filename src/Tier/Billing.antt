-- ===== src/Tier/Billing.antt =====
-- The substring test for "billing" in `assess_github_scope` never finds it in a recognised pair
-- of another resource: no other recognised word has a `b`.
use custodly.Prelude.{
  [], ◌≡◌, refl, ◌∙◌, sym, ap, true, false, ◌||◌, ◌∷◌, some, arith, Option-cases, inl, inr, List,
}
use custodly.Text.{Text, codes, trim, split_once, has, is_whitespace, split, contains}
use custodly.Text.Equality.{eq_text_iff}
use custodly.Text.Trim.{has-trim}
use custodly.Text.Split.{split_once-eq_some, has_piece, has-split}
use custodly.Text.Contains.{has-append, contains-has}
use custodly.Tier.Pairs.{assess_pair-merge}
use custodly.Tier.Scope.{
  Flags, is_bounded, apply_level, apply_resource, apply_grant, assess_pair, assess_pairs, start,
}

is_bounded-has : (r : Text) → is_bounded r ≡ true → has b'b' r ≡ false
unfolding is_bounded has
is_bounded-has r = ground (
  arith,
  eq_text_iff r (codes "repo"),
  eq_text_iff r (codes "pr"),
  eq_text_iff r (codes "issues"),
  eq_text_iff r (codes "contents"),
  eq_text_iff r (codes "metadata"),
  eq_text_iff r (codes "actions"),
  eq_text_iff r (codes "checks"),
)

apply_level-eq_some :
    (l : Text) (f : Flags) {g : Flags}
    → apply_level l f ≡ some g
    → (has b'b' l ≡ false) × (g.trips ≡ f.trips)
unfolding apply_level has
apply_level-eq_some l f h =
    ground (arith, eq_text_iff l (codes "read"), eq_text_iff l (codes "write"))

apply_resource-trips :
    (r : Text) (f g : Flags) → apply_resource r f ≡ some g → has b'b' r ≡ true → g.trips ≡ true
unfolding apply_resource
apply_resource-trips r f g h b = ground (arith, is_bounded-has r)

apply_grant-trips :
    (r l : Text) (f : Flags) {g : Flags}
    → apply_grant r l f ≡ some g
    → (has b'b' r || has b'b' l) ≡ true
    → g.trips ≡ true
unfolding apply_grant
apply_grant-trips r l f {g = g'} h b = elim (Option-cases (apply_level l f)) [
  | inl e ↦ ground arith
  | inr (g, e) ↦ ground (arith, apply_level-eq_some l f e, apply_resource-trips r g g')
]

has-pair :
    (p : Text) {a b : Text}
    → split_once b':' (trim p) ≡ some (a, b)
    → has b'b' p ≡ (has b'b' (trim a) || has b'b' (trim b))
unfolding is_whitespace
has-pair p {a} {b} e =
    let (cut, _) = split_once-eq_some b':' (trim p) e in
    sym (has-trim b'b' p refl)
    ∙ ap (has b'b') cut
    ∙ has-append b'b' a (b':' ∷ b)
    ∙ unfold has in cc (has-trim b'b' a refl, has-trim b'b' b refl)

assess_pair-trips :
    (p : Text) (f g : Flags) → assess_pair p f ≡ some g → has b'b' p ≡ true → g.trips ≡ true
unfolding assess_pair
assess_pair-trips p f g h b = elim (Option-cases (split_once b':' (trim p))) [
  | inl e ↦ ground arith
  | inr ((x, y), e) ↦ apply_grant-trips (trim x) (trim y) f (rw e at h) (sym (has-pair p e) ∙ b)
]

assess_pair-trips_stay :
    (p : Text) (f g : Flags) → assess_pair p f ≡ some g → f.trips ≡ true → g.trips ≡ true
assess_pair-trips_stay p f g h t = ground (arith, assess_pair-merge p f)

-- If the loop accepts pairs that hold a `b`, some pair has tripped a wire.
assess_pairs-trips :
    (ps : List Text) (f : Flags) {g : Flags}
    → assess_pairs ps f ≡ some g
    → (f.trips || has_piece b'b' ps) ≡ true
    → g.trips ≡ true
unfolding assess_pairs
assess_pairs-trips [] f h b = ground arith
assess_pairs-trips (p ∷ ps) f h b = elim (Option-cases (assess_pair p f)) [
  | inl e ↦ ground arith
  | inr (k, e) ↦
      assess_pairs-trips ps k (rw e at h)
        (ground (arith, assess_pair-trips p f k e, assess_pair-trips_stay p f k e))
]

-- The substring test can only be positive where a pair trips tier 2 anyway.
pub billing_trips :
    (s : Text) {f : Flags}
    → assess_pairs (split b',' s) start ≡ some f
    → contains (codes "billing") s ≡ true
    → f.trips ≡ true
billing_trips s h c =
    assess_pairs-trips (split b',' s) start h
      (has-split b',' b'b' s refl ∙ contains-has b'b' (codes "illing") s c)
