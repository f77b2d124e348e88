-- ===== src/Policy/Scopes.antt =====
-- Scopes with the order and the repetition of their pairs forgotten: a quotient of the scope
-- strings, on which the policy answer is defined.
use custodly.Prelude.{
  ◌≡◌, refl, [], arith, none, Option, is_some, not, ap, inl, inr, ◌∙◌, Bool-cases, ◌∷◌,
  append_assoc,
}
use mathlib.Core.Quot.{Quot, Quot-set}
use native.Mathlib.Nat.{ℕ_set}
use custodly.Text.{Text, split, codes, eq_text}
use custodly.Tier.{Tier, ScopeAssessment, score, as_u8, is_tier2}
use custodly.Tier.Subset.{AreAmong}
use custodly.Tier.Among.{
  joined, joined_among, joined_among_joined, among_left, among_right, AreAmong-refl,
}
use Prim.Native.Nat.{max}
use custodly.Contract.{PolicyResponse}
use custodly.Policy.{assess, evaluate, onboarding_complete, gate_human_approval, push_if}
use custodly.Tier.Order.{as_u8-max_tier}
use custodly.Tier.Widen.{score-append}
use custodly.Tier.Scope.{assess_github_scope}
use custodly.Policy.Subset.{tier_subset, assess_subset}
use mathlib.Core.Quot

-- The same pairs, in whatever order and however often.
abbrev pub SameScope : Text → Text → Type 0
SameScope s t = AreAmong (split b',' s) (split b',' t) × AreAmong (split b',' t) (split b',' s)

abbrev pub Scopes : Type 0
Scopes = Quot SameScope

as_u8-injective : (a b : Tier) → as_u8 a ≡ as_u8 b → a ≡ b
unfolding as_u8
as_u8-injective a b h = ground arith

pub PolicyResponse-set : IsSet PolicyResponse
PolicyResponse-set = hlevel ℕ_set

-- An answer is given by its tier and by whether the scope is classified.
unfoldable answer_of : Option ScopeAssessment → PolicyResponse
answer_of o = record {
  tier = as_u8 (score o);
  requires =
      push_if (is_tier2 (score o)) gate_human_approval
        (push_if (not (is_some o)) onboarding_complete []);
}

answer_of-eq :
    (o p : Option ScopeAssessment)
    → as_u8 (score o) ≡ as_u8 (score p)
    → (o ≡ none → p ≡ none)
    → (p ≡ none → o ≡ none)
    → answer_of o ≡ answer_of p
unfolding answer_of
answer_of-eq o p e f g =
    let same = as_u8-injective (score o) (score p) e in
    let known : is_some o ≡ is_some p = ground arith in rw (same, known) refl

pub evaluate_same :
    (provider s t : Text) → SameScope s t → evaluate provider s ≡ evaluate provider t
unfolding evaluate answer_of
evaluate_same provider s t h =
    answer_of-eq (assess provider s) (assess provider t)
      (omega (arith, tier_subset provider s t h.0, tier_subset provider t s h.1))
      (assess_subset provider s t h.0) (assess_subset provider t s h.1)

-- The policy answer for a set of pairs.
unfoldable pub answer : Text → Scopes → PolicyResponse
answer provider = Quot.lift PolicyResponse-set (evaluate provider) (evaluate_same provider)

pub SameScope-joined :
    (s t s' t' : Text) → SameScope s s' → SameScope t t' → SameScope (joined s t) (joined s' t')
SameScope-joined s t s' t' h k =
    (joined_among_joined s t s' t' h.0 k.0, joined_among_joined s' t' s t h.1 k.1)

pub SameScope-refl : (s : Text) → SameScope s s
SameScope-refl s = (AreAmong-refl (split b',' s), AreAmong-refl (split b',' s))

-- Asking for two scopes at once.
abbrev with_text : Text → Scopes → Scopes
with_text s =
    Quot.lift Quot-set (λ t. Quot.mk (joined s t))
      (λ t t' h. Quot.sound (SameScope-joined s t s t' (SameScope-refl s) h))

pub with_text-same : (s s' : Text) → SameScope s s' → (b : Scopes) → with_text s b ≡ with_text s' b
with_text-same s s' h =
    Quot.ind (λ b. Quot-set _ _) (λ t. Quot.sound (SameScope-joined s t s' t h (SameScope-refl t)))

unfoldable pub both : Scopes → Scopes → Scopes
both a b = Quot.lift Quot-set (λ s. with_text s b) (λ s s' h. with_text-same s s' h b) a

both_comm : (a b : Scopes) → both a b ≡ both b a
unfolding both
both_comm =
    Quot.ind (λ a. hlevel Quot-set)
      (λ s.
        Quot.ind (λ b. Quot-set _ _)
          (λ t. Quot.sound (
            joined_among s t (joined t s) (among_right t s) (among_left t s),
            joined_among t s (joined s t) (among_right s t) (among_left s t),
          )))

both_idem : (a : Scopes) → both a a ≡ a
unfolding both
both_idem =
    Quot.ind (λ a. Quot-set _ _)
      (λ s. Quot.sound (
        joined_among s s s (AreAmong-refl (split b',' s)) (AreAmong-refl (split b',' s)),
        among_left s s,
      ))

both_assoc : (a b c : Scopes) → both (both a b) c ≡ both a (both b c)
unfolding both
both_assoc =
    Quot.ind (λ a. hlevel Quot-set)
      (λ s.
        Quot.ind (λ b. hlevel Quot-set)
          (λ t.
            Quot.ind (λ c. Quot-set _ _) (λ u. ap Quot.mk (append_assoc s (b',' ∷ t) (b',' ∷ u)))))

tier-joined :
    (provider s t : Text)
    → (evaluate provider (joined s t)).tier
      ≡ max (evaluate provider s).tier (evaluate provider t).tier
unfolding evaluate assess as_u8
tier-joined provider s t = elim (Bool-cases (eq_text provider (codes "github"))) [
  | inl e ↦ rw e (
      ap as_u8 (score-append s t)
      ∙ as_u8-max_tier (score (assess_github_scope s)) (score (assess_github_scope t)))
  | inr ne ↦ rw ne (omega arith)
]

answer-both :
    (provider : Text) (a b : Scopes)
    → (answer provider (both a b)).tier ≡ max (answer provider a).tier (answer provider b).tier
unfolding answer both
answer-both provider =
    Quot.ind (λ a. hlevel ℕ_set) (λ s. Quot.ind (λ b. ℕ_set _ _) (λ t. tier-joined provider s t))

-- The policy answer to a scope string is a function of the set of its pairs; asking for two such
-- sets at once is commutative, idempotent and associative, and is answered with the higher of their
-- tiers.
pub scopes_semilattice :
    (provider : Text) (a b c : Scopes)
    → ((s : Text) → answer provider (Quot.mk s) ≡ evaluate provider s)
      × (both a b ≡ both b a)
      × (both a a ≡ a)
      × (both (both a b) c ≡ both a (both b c))
      × ((answer provider (both a b)).tier ≡ max (answer provider a).tier (answer provider b).tier)
unfolding answer
scopes_semilattice provider a b c =
    (λ s. refl, both_comm a b, both_idem a, both_assoc a b c, answer-both provider a b)
