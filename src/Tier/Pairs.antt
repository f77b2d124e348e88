-- ===== src/Tier/Pairs.antt =====
-- The loop of `assess_github_scope` pair by pair: its result is the worst verdict on a pair.
use custodly.Prelude.{
  ◌≡◌, refl, ◌∙◌, sym, ap, ◌&&◌, ◌||◌, List, [], ◌∷◌, ◌++◌, Option, none, some, arith,
  if◌then◌else◌, Option-cases, inl, inr,
}
use custodly.Text.{Text, trim, split_once}
use custodly.Tier.{Tier, tier0, tier1, tier2}
use custodly.Tier.Order.{max_tier, max_tier_assoc, max_tier2}
use custodly.Tier.Scope.{
  Flags, start, apply_level, apply_resource, apply_grant, assess_pair, assess_pairs,
}

-- Flags only get worse: writes and tripped wires of both.
abbrev pub merge : Flags → Flags → Flags
merge f g = record { read_only = f.read_only && g.read_only; trips = f.trips || g.trips }

abbrev pub merge_into : Flags → Option Flags → Option Flags
merge_into f none = none
merge_into f (some g) = some (merge f g)

-- The tier that a result of the loop stands for.
abbrev pub flags_tier : Option Flags → Tier
flags_tier none = tier2
flags_tier (some f) = if f.trips then tier2 else if f.read_only then tier0 else tier1

apply_grant-merge :
    (r l : Text) (f : Flags) → apply_grant r l f ≡ merge_into f (apply_grant r l start)
unfolding apply_grant apply_level apply_resource
apply_grant-merge r l f = ground arith

pub assess_pair-merge :
    (p : Text) (f : Flags) → assess_pair p f ≡ merge_into f (assess_pair p start)
unfolding assess_pair
assess_pair-merge p f = elim (Option-cases (split_once b':' (trim p))) [
  | inl e ↦ rw e
  | inr (ab, e) ↦ rw e (apply_grant-merge (trim ab.0) (trim ab.1) f)
]

-- The tier of one pair on its own.
abbrev pub pair_tier : Text → Tier
pair_tier p = flags_tier (assess_pair p start)

abbrev pub worst : List Text → Tier
worst [] = tier0
worst (p ∷ ps) = max_tier (pair_tier p) (worst ps)

flags_tier-merge :
    (f : Flags) (o : Option Flags)
    → flags_tier (merge_into f o) ≡ max_tier (flags_tier (some f)) (flags_tier o)
flags_tier-merge f o = ground arith

flags_tier-pairs :
    (ps : List Text) (f : Flags)
    → flags_tier (assess_pairs ps f) ≡ max_tier (flags_tier (some f)) (worst ps)
unfolding assess_pairs
flags_tier-pairs [] f = ground arith
flags_tier-pairs (p ∷ ps) f = elim (Option-cases (assess_pair p start)) [
  | inl e ↦ rw (assess_pair-merge p f, e) (sym (max_tier2 _))
  | inr (g, e) ↦
      rw (assess_pair-merge p f, e)
        (flags_tier-pairs ps (merge f g)
          ∙ ap (λ t. max_tier t (worst ps)) (flags_tier-merge f (some g))
          ∙ max_tier_assoc (flags_tier (some f)) (flags_tier (some g)) (worst ps))
]

pub assess_pairs-worst : (ps : List Text) → flags_tier (assess_pairs ps start) ≡ worst ps
assess_pairs-worst ps = flags_tier-pairs ps start

pub worst-append : (ps qs : List Text) → worst (ps ++ qs) ≡ max_tier (worst ps) (worst qs)
worst-append [] qs = refl
worst-append (p ∷ ps) qs =
    rw (worst-append ps qs) (sym (max_tier_assoc (pair_tier p) (worst ps) (worst qs)))
