-- ===== src/Policy/Meaning.antt =====
-- What the lower two tiers of a policy answer mean.
use custodly.Prelude.{
  ◌≡◌, ◌↔◌, ◌≤◌, ◌⊎◌, refl, true, false, List, [], ◌∷◌, Option, none, some, arith, All, inl, inr,
  Option-cases, Bool-cases,
}
use custodly.Text.{Text, codes, eq_text}
use custodly.Text.Equality.{eq_text_iff}
use custodly.Tier.{ScopeAssessment, score, as_u8}
use custodly.Tier.Scope.{assess_github_scope, is_sensitive}
use custodly.Tier.Grants.{
  All_of_one, Grant, IsOneOf, IsRecognised, bounded_resources, is_sensitive_iff,
}
use custodly.Tier.Summary.{
  Describes, summary, any_grant, all_grants, is_read, is_billing, trips, assess_iff,
  assess_of_grants,
}
use custodly.Policy.{assess, evaluate}

abbrev pub IsBoundedGrant : Grant → Type 0
IsBoundedGrant g = IsOneOf g.resource bounded_resources

abbrev pub IsBoundedRead : Grant → Type 0
IsBoundedRead g = IsOneOf g.resource bounded_resources × (g.level ≡ codes "read")

-- No resource is both bounded and sensitive.
bounded-insensitive : (r : Text) → IsOneOf r bounded_resources → is_sensitive r ≡ false
unfolding is_sensitive eq_text
bounded-insensitive r =
    All_of_one (λ t. is_sensitive t ≡ false) bounded_resources
      (refl, (refl, (refl, (refl, (refl, (refl, (refl, tt)))))))

bounded_of_insensitive :
    (g : Grant) → IsRecognised g → is_sensitive g.resource ≡ false → IsBoundedGrant g
bounded_of_insensitive g k h = elim k.known [
  | inl m ↦ m
  | inr m ↦ cc ((is_sensitive_iff g.resource).1 m)
]

untripped_iff :
    (gs : List Grant) → All IsRecognised gs → (any_grant trips gs ≡ false) ↔ All IsBoundedGrant gs
untripped_iff [] k = (λ h. tt, λ h. refl)
untripped_iff (g ∷ gs) k =
    let rest = untripped_iff gs k.1 in
    (
      λ h. (bounded_of_insensitive g k.0 (ground arith), rest.0 (ground arith)),
      λ h. rw (bounded-insensitive g.resource h.0) (rest.1 h.1),
    )

reads_iff :
    (gs : List Grant) → (all_grants is_read gs ≡ true) ↔ All (λ g. g.level ≡ codes "read") gs
reads_iff [] = (λ h. tt, λ h. refl)
reads_iff (g ∷ gs) =
    let rest = reads_iff gs in
    let this = eq_text_iff g.level (codes "read") in
    (λ h. (this.0 (ground arith), rest.0 (ground arith)), λ h. rw (this.1 h.0) (rest.1 h.1))

-- A billing grant trips.
no_billing : (gs : List Grant) → any_grant trips gs ≡ false → any_grant is_billing gs ≡ false
unfolding is_sensitive
no_billing [] h = refl
no_billing (g ∷ gs) h = ground (arith, no_billing gs)

score-summary :
    (gs : List Grant)
    → ((as_u8 (score (some (summary gs))) ≤ 1) ↔ (any_grant trips gs ≡ false))
      × ((as_u8 (score (some (summary gs))) ≡ 0)
          ↔ ((any_grant trips gs ≡ false) × (all_grants is_read gs ≡ true)))
unfolding score as_u8
score-summary gs = (ground (arith, no_billing gs), ground (arith, no_billing gs))

All-both :
    (gs : List Grant)
    → All IsBoundedRead gs ↔ (All IsBoundedGrant gs × All (λ g. g.level ≡ codes "read") gs)
All-both [] = (λ h. (tt, tt), λ h. tt)
All-both (g ∷ gs) = (
  λ (h, hs). let rest = (All-both gs).0 hs in ((h.0, rest.0), (h.1, rest.1)),
  λ (a, b). ((a.0, b.0), (All-both gs).1 (a.1, b.1)),
)

classified :
    (provider scope : Text) (gs : List Grant)
    → provider ≡ codes "github"
    → Describes scope gs
    → assess provider scope ≡ some (summary gs)
unfolding assess
classified provider scope gs e d =
    rw ((eq_text_iff provider (codes "github")).1 e) (assess_of_grants scope gs d)

assess-cases :
    (provider scope : Text)
    → (assess provider scope ≡ none)
      ⊎ ((gs : List Grant) × (provider ≡ codes "github")
          × Describes scope gs
          × (assess provider scope ≡ some (summary gs)))
unfolding assess
assess-cases provider scope = elim (Bool-cases (eq_text provider (codes "github"))) [
  | inl here ↦ elim (Option-cases (assess_github_scope scope)) [
    | inl e ↦ inl (rw (here, e))
    | inr (a, e) ↦
        let (gs, d, same) = (assess_iff scope a).0 e in
        inr (gs, (eq_text_iff provider (codes "github")).0 here, d, rw (here, e, same))
  ]
  | inr other ↦ inl (rw other)
]

unclassified_high : (a : Option ScopeAssessment) → a ≡ none → as_u8 (score a) ≡ 2
unfolding score as_u8
unclassified_high a h = rw h refl

-- What a policy answer at a lower tier says of the scope: it names GitHub grants of one kind.
abbrev pub Names : (Grant → Type 0) → Text → Text → Type 0
Names P provider scope =
    (provider ≡ codes "github") × ((gs : List Grant) × Describes scope gs × All P gs)

-- A policy answer is below tier 2 exactly if the provider is GitHub and every comma-separated pair
-- of the scope is a recognised grant of a bounded resource; it is tier 0 exactly if each is a `read`
-- grant besides.
pub evaluate_meaning :
    (provider scope : Text)
    → (((evaluate provider scope).tier ≤ 1) ↔ Names IsBoundedGrant provider scope)
      × (((evaluate provider scope).tier ≡ 0) ↔ Names IsBoundedRead provider scope)
unfolding evaluate
evaluate_meaning provider scope = (
  (
    λ h. elim (assess-cases provider scope) [
      | inl e ↦ absurd (omega (arith, unclassified_high (assess provider scope) e))
      | inr (gs, g, d, e) ↦
          (g, (gs, d, (untripped_iff gs d.recognised).0 ((score-summary gs).0.0 (rw e at h))))
    ],
    λ (g, (gs, d, a)).
        rw (classified provider scope gs g d)
          ((score-summary gs).0.1 ((untripped_iff gs d.recognised).1 a)),
  ),
  (
    λ h. elim (assess-cases provider scope) [
      | inl e ↦ absurd (omega (arith, unclassified_high (assess provider scope) e))
      | inr (gs, g, d, e) ↦
          let (calm, reads) = (score-summary gs).1.0 (rw e at h) in
          (
            g,
            (
              gs,
              d,
              (All-both gs).1 ((untripped_iff gs d.recognised).0 calm, (reads_iff gs).0 reads),
            ),
          )
    ],
    λ (g, (gs, d, a)).
        let (bounded, reads) = (All-both gs).0 a in
        rw (classified provider scope gs g d) (
          (score-summary gs).1.1
            ((untripped_iff gs d.recognised).1 bounded, (reads_iff gs).1 reads)),
  ),
)
