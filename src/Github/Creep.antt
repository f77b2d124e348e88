-- ===== src/Github/Creep.antt =====
-- `verify_no_scope_creep` against a description of what a grant may hold.
use custodly.Prelude.{
  ◌≡◌, ◌≢◌, ◌↔◌, ◌⊎◌, inl, inr, refl, true, [], ◌∷◌, Option, none, some, arith, All, Bool-cases, ok,
  Result-cases,
}
use mathlib.Core.Option.{some-injective}
use custodly.Text.{Text, codes, eq_text}
use custodly.Text.Equality.{eq_text_iff, ne_of_test}
use custodly.Map.{get}
use custodly.Github.{
  Permissions, GithubError, scope_creep, unrecognized_permission, level_rank, verify_level,
  verify_entry, verify_entries, verify_no_scope_creep, is_baseline,
}

-- `read` is within every requested level, `write` within every one but `read`.
abbrev pub IsWithin : Text → Text → Type 0
IsWithin level asked = (level ≡ codes "read") ⊎ ((level ≡ codes "write") × (asked ≢ codes "read"))

abbrev pub IsBaseline : Text → Text → Type 0
IsBaseline resource level = (resource ≡ codes "metadata") × (level ≡ codes "read")

-- A granted permission that a request covers.
abbrev pub IsCovered : Permissions → Text × Text → Type 0
IsCovered requested (resource, level) =
    IsBaseline resource level
    ⊎ ((asked : Text) × (get resource requested ≡ some asked) × IsWithin level asked)

pub is_baseline_iff : (r l : Text) → (is_baseline r l ≡ true) ↔ IsBaseline r l
is_baseline_iff r l = ground (arith, eq_text_iff r (codes "metadata"), eq_text_iff l (codes "read"))

pub write-ne-read : ◌≢◌ {A = Text} (codes "write") (codes "read")
unfolding eq_text
write-ne-read = ne_of_test (codes "write") (codes "read") refl

-- What an error of the check says of the entry that it stopped at.
abbrev pub Refuses :
    {J R : Type 0} → Permissions → Permissions → Text × Text → GithubError J R → Type 0
Refuses requested granted (resource, level) e =
    ((get resource requested ≡ none) × (e ≡ scope_creep requested granted))
    ⊎ ((level ≢ codes "read")
        × (level ≢ codes "write")
        × (get resource requested ≢ none)
        × (e ≡ unrecognized_permission granted))
    ⊎ ((level ≡ codes "write")
        × (get resource requested ≡ some (codes "read"))
        × (e ≡ scope_creep requested granted))

module _ {J R : Type 0} (requested granted : Permissions) where
  verify_level-some :
      (level asked : Text)
      → (verify_level {J = J} {R = R} requested granted level (some asked) ≡ ok tt)
        ↔ IsWithin level asked
  unfolding verify_level level_rank
  verify_level-some level asked = ground (
    arith,
    eq_text_iff level (codes "read"),
    eq_text_iff level (codes "write"),
    eq_text_iff asked (codes "read"),
    eq_text_iff asked (codes "write"),
    write-ne-read,
  )

  verify_level_iff :
      (level : Text) (found : Option Text)
      → (verify_level {J = J} {R = R} requested granted level found ≡ ok tt)
        ↔ ((asked : Text) × (found ≡ some asked) × IsWithin level asked)
  verify_level_iff level none = unfold verify_level in (λ h. cc, λ (asked, e, w). cc)
  verify_level_iff level (some asked) = (
    λ h. (asked, refl, (verify_level-some level asked).0 h),
    λ (other, e, w). (verify_level-some level asked).1 (rw (some-injective _ _ e) w),
  )

  pub verify_entry_iff :
      (resource level : Text)
      → (verify_entry {J = J} {R = R} requested granted resource level ≡ ok tt)
        ↔ IsCovered requested (resource, level)
  unfolding verify_entry
  verify_entry_iff resource level =
      let (to, from) = verify_level_iff level (get resource requested) in
      elim (Bool-cases (is_baseline resource level)) [
        | inl b ↦ (λ h. inl ((is_baseline_iff resource level).0 b), λ h. rw b)
        | inr n ↦ (
          λ h. inr (to (rw n at h)),
          λ h. elim h [
            | inl base ↦ cc ((is_baseline_iff resource level).1 base)
            | inr found ↦ rw n (from found)
          ],
        )
      ]

  verify_entries_iff :
      (entries : Permissions)
      → (verify_entries {J = J} {R = R} requested granted entries ≡ ok tt)
        ↔ All (IsCovered requested) entries
  unfolding verify_entries
  verify_entries_iff [] = (λ h. tt, λ h. refl)
  verify_entries_iff ((resource, level) ∷ rest) =
      let (to, from) = verify_entry_iff resource level in
      let (to_rest, from_rest) = verify_entries_iff rest in
      (
        λ h. elim (Result-cases (verify_entry {J = J} {R = R} requested granted resource level)) [
          | inl (u, e) ↦ (to e, to_rest (rw e at h))
          | inr (x, e) ↦ cc (rw e at h)
        ],
        λ (c, cs). rw (from c) (from_rest cs),
      )

-- The check passes exactly if the request covers every granted permission: the `metadata: read`
-- that GitHub always adds, or a requested resource at a level that is not above the requested one.
pub verify_no_scope_creep_iff :
    {J R : Type 0} (requested granted : Permissions)
    → (verify_no_scope_creep {J = J} {R = R} requested granted ≡ ok tt)
      ↔ All (IsCovered requested) granted
unfolding verify_no_scope_creep
verify_no_scope_creep_iff requested granted = verify_entries_iff requested granted granted
