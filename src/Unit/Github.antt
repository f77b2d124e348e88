-- ===== src/Unit/Github.antt =====
-- The tests of crates/custodly-github/src/app.rs on grants and tokens.
use custodly.Prelude.{◌≡◌, refl, List, [], ◌∷◌, Result, ok, err}
use custodly.Text.{
  Text, codes, trim, trim_start, trim_end, is_whitespace, split, split_once, contains, starts_with,
  eq_text, join,
}
use custodly.Map.{get, insert, from_list, lt_text}
use custodly.Tier.{tier0, score}
use custodly.Tier.Scope.{
  assess_github_scope, assess_pairs, assess_pair, apply_grant, apply_level, apply_resource,
  is_bounded, is_sensitive,
}
use custodly.Github.{
  Permissions, GithubError, scope_creep, unrecognized_permission, verify_no_scope_creep,
  verify_entries, verify_entry, verify_level, level_rank, from_response, scope_of,
}

abbrev pub perms : List (Text × Text) → Permissions
perms pairs = from_list pairs

module _ (J R : Type 0) where
  abbrev verify : List (Text × Text) → List (Text × Text) → Result (GithubError J R) (Unit {0})
  verify requested granted = verify_no_scope_creep (perms requested) (perms granted)

  abbrev IsScopeCreep : Result (GithubError J R) (Unit {0}) → Type 0
  IsScopeCreep r =
      (requested : Permissions) × (granted : Permissions) × (r
        ≡ err (scope_creep requested granted))

  abbrev pub ExactMatchIsNotScopeCreep : Type 0
  ExactMatchIsNotScopeCreep =
      verify ((codes "contents", codes "read") ∷ []) ((codes "contents", codes "read") ∷ []) ≡ ok tt

  abbrev pub NarrowerThanRequestedIsNotScopeCreep : Type 0
  NarrowerThanRequestedIsNotScopeCreep =
      verify ((codes "contents", codes "write") ∷ []) ((codes "contents", codes "read") ∷ [])
      ≡ ok tt

  abbrev pub AMissingRequestedPermissionIsNotScopeCreep : Type 0
  AMissingRequestedPermissionIsNotScopeCreep =
      verify ((codes "contents", codes "read") ∷ (codes "issues", codes "read") ∷ [])
        ((codes "contents", codes "read") ∷ [])
      ≡ ok tt

  abbrev pub AHigherLevelThanRequestedIsScopeCreep : Type 0
  AHigherLevelThanRequestedIsScopeCreep =
      IsScopeCreep
        (verify ((codes "contents", codes "read") ∷ []) ((codes "contents", codes "write") ∷ []))

  abbrev pub APermissionNotRequestedAtAllIsScopeCreep : Type 0
  APermissionNotRequestedAtAllIsScopeCreep = IsScopeCreep (
      verify ((codes "contents", codes "read") ∷ [])
        ((codes "contents", codes "read") ∷ (codes "administration", codes "write") ∷ []))

  abbrev pub GithubsAlwaysOnMetadataReadBaselineIsNotScopeCreep : Type 0
  GithubsAlwaysOnMetadataReadBaselineIsNotScopeCreep =
      verify ((codes "contents", codes "read") ∷ [])
        ((codes "contents", codes "read") ∷ (codes "metadata", codes "read") ∷ [])
      ≡ ok tt

  abbrev pub MetadataWriteIsStillScopeCreep : Type 0
  MetadataWriteIsStillScopeCreep = IsScopeCreep (
      verify ((codes "contents", codes "read") ∷ [])
        ((codes "contents", codes "read") ∷ (codes "metadata", codes "write") ∷ []))

  abbrev pub AnUnrecognizedGrantedLevelFailsClosed : Type 0
  AnUnrecognizedGrantedLevelFailsClosed =
      (granted : Permissions) × (verify ((codes "contents", codes "admin") ∷ [])
          ((codes "contents", codes "admin") ∷ [])
        ≡ err (unrecognized_permission granted))

  grants_pass :
      ExactMatchIsNotScopeCreep × NarrowerThanRequestedIsNotScopeCreep
      × AMissingRequestedPermissionIsNotScopeCreep × AHigherLevelThanRequestedIsScopeCreep
      × APermissionNotRequestedAtAllIsScopeCreep
      × GithubsAlwaysOnMetadataReadBaselineIsNotScopeCreep × MetadataWriteIsStillScopeCreep
      × AnUnrecognizedGrantedLevelFailsClosed
  unfolding verify_no_scope_creep verify_entries verify_entry verify_level level_rank get insert
      from_list lt_text eq_text
  grants_pass = (refl, refl, refl, (_, _, refl), (_, _, refl), refl, (_, _, refl), (_, refl))

-- At any expiry.
abbrev pub MintedTokenScoresItsTierFromWhatWasActuallyGranted :
    {DateTime : Type 0} → DateTime → Type 0
MintedTokenScoresItsTierFromWhatWasActuallyGranted expires_at =
    let minted = from_response (record {
      token = codes "ghs_test";
      expires_at = expires_at;
      permissions = perms ((codes "contents", codes "read") ∷ []);
    }) in
    (minted.scope_string ≡ codes "contents:read") × (minted.tier ≡ tier0)

token_passes :
    {DateTime : Type 0} (expires_at : DateTime)
    → MintedTokenScoresItsTierFromWhatWasActuallyGranted expires_at
unfolding from_response scope_of join insert from_list assess_github_scope assess_pairs assess_pair
    apply_grant apply_level apply_resource is_bounded is_sensitive score trim trim_start trim_end
    is_whitespace split split_once contains starts_with eq_text
token_passes expires_at = (refl, refl)
