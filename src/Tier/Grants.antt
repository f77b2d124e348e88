-- ===== src/Tier/Grants.antt =====
-- The grants that a scope string names, described without the loop of `assess_github_scope`, and
-- what one turn of the loop does at a pair.
use custodly.Prelude.{
  subst, ◌≡◌, refl, true, false, ◌&&◌, ◌||◌, List, [], ◌∷◌, ◌++◌, some, arith, Option-cases,
  Bool-cases, inl, inr, is_empty, ◌⊎◌, ◌↔◌, All, Any, sym,
}
use custodly.Text.{Text, codes, eq_text, trim, split_once, has}
use custodly.Text.Equality.{eq_text_iff}
use custodly.Text.Split.{split_once-eq_some, split_once-append}
use custodly.Tier.Scope.{
  Flags, is_bounded, is_sensitive, apply_level, apply_resource, apply_grant, assess_pair,
}

pub record Grant : Type 0 where
  pub resource : Text
  pub level : Text

abbrev pub IsOneOf : Text → List Text → Type 0
IsOneOf r ts = Any (λ t. r ≡ t) ts

abbrev pub bounded_resources : List Text
bounded_resources =
    codes "repo"
    ∷ codes "pr"
    ∷ codes "issues"
    ∷ codes "contents"
    ∷ codes "metadata"
    ∷ codes "actions"
    ∷ codes "checks"
    ∷ []

abbrev pub sensitive_resources : List Text
sensitive_resources = codes "admin" ∷ codes "billing" ∷ codes "secrets" ∷ []

-- The pair, trimmed, is the resource and the level around its first colon, white space aside.
pub record IsGrant (pair : Text) (g : Grant) : Type 0 where
  pub before : Text
  pub after : Text
  pub cut : trim pair ≡ before ++ (b':' ∷ after)
  pub first : has b':' before ≡ false
  pub resource_is : g.resource ≡ trim before
  pub level_is : g.level ≡ trim after

pub record IsRecognised (g : Grant) : Type 0 where
  pub known : IsOneOf g.resource bounded_resources ⊎ IsOneOf g.resource sensitive_resources
  pub graded : (g.level ≡ codes "read") ⊎ (g.level ≡ codes "write")

pub is_bounded_iff : (r : Text) → (is_bounded r ≡ true) ↔ IsOneOf r bounded_resources
unfolding is_bounded
is_bounded_iff r = ground (
  arith,
  eq_text_iff r (codes "repo"),
  eq_text_iff r (codes "pr"),
  eq_text_iff r (codes "issues"),
  eq_text_iff r (codes "contents"),
  eq_text_iff r (codes "metadata"),
  eq_text_iff r (codes "actions"),
  eq_text_iff r (codes "checks"),
)

pub is_sensitive_iff : (r : Text) → (is_sensitive r ≡ true) ↔ IsOneOf r sensitive_resources
unfolding is_sensitive
is_sensitive_iff r = ground (
  arith,
  eq_text_iff r (codes "admin"),
  eq_text_iff r (codes "billing"),
  eq_text_iff r (codes "secrets"),
)

-- What a recognised grant does to the flags.
abbrev pub mark : Grant → Flags → Flags
mark g f = record {
  read_only = f.read_only && eq_text g.level (codes "read");
  trips = f.trips || is_sensitive g.resource;
}

apply_level-graded :
    (l : Text) (f : Flags)
    → (l ≡ codes "read") ⊎ (l ≡ codes "write")
    → apply_level l f ≡ some (record f { read_only = f.read_only && eq_text l (codes "read") })
unfolding apply_level eq_text
apply_level-graded l f (inl e) = rw e (ground arith)
apply_level-graded l f (inr e) = rw e (ground arith)

-- What holds of each listed text holds of a text that is one of them.
pub All_of_one : (P : Text → Type 0) {r : Text} (ts : List Text) → All P ts → IsOneOf r ts → P r
All_of_one P [] h m = absurd m
All_of_one P (t ∷ ts) h (inl e) = subst P (sym e) h.0
All_of_one P (t ∷ ts) h (inr m) = All_of_one P ts h.1 m

bounded_insensitive : All (λ t. is_sensitive t ≡ false) bounded_resources
unfolding is_sensitive eq_text
bounded_insensitive = (refl, (refl, (refl, (refl, (refl, (refl, (refl, tt)))))))

not-is_sensitive : (r : Text) → is_bounded r ≡ true → is_sensitive r ≡ false
not-is_sensitive r h =
    All_of_one (λ t. is_sensitive t ≡ false) bounded_resources bounded_insensitive
      ((is_bounded_iff r).0 h)

apply_resource-known :
    (r : Text) (f : Flags)
    → IsOneOf r bounded_resources ⊎ IsOneOf r sensitive_resources
    → apply_resource r f ≡ some (record f { trips = f.trips || is_sensitive r })
unfolding apply_resource
apply_resource-known r f (inl k) =
    let b = (is_bounded_iff r).1 k in rw (b, not-is_sensitive r b) (ground arith)
apply_resource-known r f (inr k) =
    let s = (is_sensitive_iff r).1 k in
    elim (Bool-cases (is_bounded r)) [
      | inl b ↦ absurd (cc (not-is_sensitive r b))
      | inr n ↦ rw (n, s) (ground arith)
    ]

nonempty_of_graded : (l : Text) → (l ≡ codes "read") ⊎ (l ≡ codes "write") → is_empty l ≡ false
nonempty_of_graded l (inl e) = rw e
nonempty_of_graded l (inr e) = rw e

nonempty_of_known :
    (r : Text) → IsOneOf r bounded_resources ⊎ IsOneOf r sensitive_resources → is_empty r ≡ false
nonempty_of_known r (inl m) =
    All_of_one (λ t. is_empty t ≡ false) bounded_resources
      (refl, (refl, (refl, (refl, (refl, (refl, (refl, tt))))))) m
nonempty_of_known r (inr m) =
    All_of_one (λ t. is_empty t ≡ false) sensitive_resources (refl, (refl, (refl, tt))) m

pub assess_pair-mark :
    (p : Text) (g : Grant) (f : Flags)
    → IsGrant p g
    → IsRecognised g
    → assess_pair p f ≡ some (mark g f)
unfolding assess_pair apply_grant
assess_pair-mark p g f w k =
    rw
      (
        w.cut,
        split_once-append b':' w.before w.after w.first,
        ← w.resource_is,
        ← w.level_is,
        nonempty_of_known g.resource k.known,
        nonempty_of_graded g.level k.graded,
        apply_level-graded g.level f k.graded,
      )
      (apply_resource-known g.resource _ k.known)

apply_level-eq_some :
    (l : Text) (f g : Flags) → apply_level l f ≡ some g → (l ≡ codes "read") ⊎ (l ≡ codes "write")
unfolding apply_level
apply_level-eq_some l f g h =
    ground (arith, eq_text_iff l (codes "read"), eq_text_iff l (codes "write"))

apply_resource-eq_some :
    (r : Text) (f g : Flags)
    → apply_resource r f ≡ some g
    → IsOneOf r bounded_resources ⊎ IsOneOf r sensitive_resources
unfolding apply_resource
apply_resource-eq_some r f g h = elim (Bool-cases (is_bounded r)) [
  | inl b ↦ inl ((is_bounded_iff r).0 b)
  | inr n ↦ elim (Bool-cases (is_sensitive r)) [
    | inl s ↦ inr ((is_sensitive_iff r).0 s)
    | inr m ↦ cc (rw (n, m) at h)
  ]
]

apply_grant-eq_some :
    (r l : Text) (f g : Flags)
    → apply_grant r l f ≡ some g
    → IsRecognised (record { resource = r; level = l })
unfolding apply_grant
apply_grant-eq_some r l f g h = elim (Option-cases (apply_level l f)) [
  | inl e ↦ ground arith
  | inr (k, e) ↦ elim (Bool-cases (is_empty r || is_empty l)) [
    | inl b ↦ cc (rw b at h)
    | inr b ↦ record {
      known = apply_resource-eq_some r k g (rw (b, e) at h);
      graded = apply_level-eq_some l f k e;
    }
  ]
]

-- A pair that the loop accepts is a recognised grant.
pub assess_pair-eq_some :
    (p : Text) (f g : Flags) → assess_pair p f ≡ some g → (x : Grant) × IsGrant p x × IsRecognised x
unfolding assess_pair
assess_pair-eq_some p f g h = elim (Option-cases (split_once b':' (trim p))) [
  | inl e ↦ cc (rw e at h)
  | inr ((a, b), e) ↦
      let (cut, first) = split_once-eq_some b':' (trim p) e in
      (
        record { resource = trim a; level = trim b },
        record {
          before = a;
          after = b;
          cut = cut;
          first = first;
          resource_is = refl;
          level_is = refl;
        },
        apply_grant-eq_some (trim a) (trim b) f g (rw e at h),
      )
]
