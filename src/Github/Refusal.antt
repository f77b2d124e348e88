-- ===== src/Github/Refusal.antt =====
-- Why `verify_no_scope_creep` refuses, and a level of the request that it does not look at.
use custodly.Prelude.{
  ◌≡◌, inl, inr, refl, ◌∙◌, ap, [], ◌∷◌, ◌++◌, Option, none, some, arith, All, Bool-cases, ok, err,
  Result-cases,
}
use custodly.Text.{Text, codes}
use custodly.Text.Equality.{eq_text_iff}
use custodly.Map.{get}
use custodly.Github.{
  Permissions, GithubError, level_rank, verify_level, verify_entry, verify_entries,
  verify_no_scope_creep, is_baseline,
}
use custodly.Github.Creep.{
  IsCovered, IsBaseline, Refuses, is_baseline_iff, write-ne-read, verify_entry_iff,
  verify_no_scope_creep_iff,
}

module _ {J R : Type 0} (requested granted : Permissions) where
  verify_level-Refuses :
      (resource level : Text) (found : Option Text) (e : GithubError J R)
      → get resource requested ≡ found
      → verify_level requested granted level found ≡ err e
      → Refuses requested granted (resource, level) e
  unfolding verify_level level_rank
  verify_level-Refuses resource level none e g h = inl (g, ground arith)
  verify_level-Refuses resource level (some asked) e g h = ground (
    arith,
    eq_text_iff level (codes "read"),
    eq_text_iff level (codes "write"),
    eq_text_iff asked (codes "read"),
    eq_text_iff asked (codes "write"),
    write-ne-read,
  )

  verify_entry-Refuses :
      (resource level : Text) (e : GithubError J R)
      → verify_entry requested granted resource level ≡ err e
      → (¬ IsBaseline resource level) × Refuses requested granted (resource, level) e
  unfolding verify_entry
  verify_entry-Refuses resource level e h = elim (Bool-cases (is_baseline resource level)) [
    | inl b ↦ cc (rw b at h)
    | inr n ↦ (
      λ base. cc ((is_baseline_iff resource level).1 base),
      verify_level-Refuses resource level (get resource requested) e refl (rw n at h),
    )
  ]

-- Where the check stopped: the entries before are covered, and the error says what is wrong with
-- this one.
pub record StopsAt {J R : Type 0} (requested granted entries : Permissions) (e : GithubError J R)
    : Type 0 where
  pub before : Permissions
  pub resource : Text
  pub level : Text
  pub after : Permissions
  pub splits : entries ≡ before ++ ((resource, level) ∷ after)
  pub covered : All (IsCovered requested) before
  pub not_baseline : ¬ IsBaseline resource level
  pub refused : Refuses requested granted (resource, level) e

module _ {J R : Type 0} (requested granted : Permissions) where
  verify_entries-StopsAt :
      (entries : Permissions) (e : GithubError J R)
      → verify_entries requested granted entries ≡ err e
      → StopsAt requested granted entries e
  unfolding verify_entries
  verify_entries-StopsAt [] e h = cc
  verify_entries-StopsAt ((resource, level) ∷ rest) e h =
      elim (Result-cases (verify_entry {J = J} {R = R} requested granted resource level)) [
        | inl (u, v) ↦
            let s = verify_entries-StopsAt rest e (rw v at h) in
            record {
              before = (resource, level) ∷ s.before;
              resource = s.resource;
              level = s.level;
              after = s.after;
              splits = ap (◌∷◌ (resource, level)) s.splits;
              covered = ((verify_entry_iff requested granted resource level).0 v, s.covered);
              not_baseline = s.not_baseline;
              refused = s.refused;
            }
        | inr (x, v) ↦
            let (nb, r) = verify_entry-Refuses requested granted resource level e (v ∙ rw v at h) in
            record {
              before = [];
              resource = resource;
              level = level;
              after = rest;
              splits = refl;
              covered = tt;
              not_baseline = nb;
              refused = r;
            }
      ]

-- An error names the first granted permission, in the order of the keys, that the request does not
-- cover: `ScopeCreep` if its resource was not requested, or `write` was granted where `read` was
-- requested; `UnrecognizedPermission` if a requested resource came at another level than those.
pub verify_no_scope_creep-StopsAt :
    {J R : Type 0} (requested granted : Permissions) (e : GithubError J R)
    → verify_no_scope_creep requested granted ≡ err e
    → StopsAt requested granted granted e
unfolding verify_no_scope_creep
verify_no_scope_creep-StopsAt requested granted e h =
    verify_entries-StopsAt requested granted granted e h

-- A resource requested at any level but `read`, also one that the code does not recognise, may come
-- back with `write`.
pub unranked_request_covers_write :
    {J R : Type 0} (requested : Permissions) (resource asked : Text)
    → get resource requested ≡ some asked
    → level_rank asked ≡ none
    → verify_no_scope_creep {J = J} {R = R} requested ((resource, codes "write") ∷ []) ≡ ok tt
unfolding level_rank
unranked_request_covers_write requested resource asked found unranked =
    (verify_no_scope_creep_iff requested ((resource, codes "write") ∷ [])).1
      (inr (asked, found, inr (refl, ground (arith, eq_text_iff asked (codes "read")))), tt)
