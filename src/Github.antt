-- ===== src/Github.antt =====
-- crates/custodly-github/src/app.rs: the data of the GitHub App pilot, the scope-creep check and
-- the token built from a response. `mint_jwt` and the network call are in Github/Jwt.antt and
-- Github/Mint.antt.
pub mod Creep
pub mod Refusal
pub mod Token
pub mod Jwt
pub mod Mint
pub mod Gate
pub mod Answer
pub mod Live
use custodly.Prelude.{
  ℕ, Bool, true, false, ◌&&◌, List, [], ◌∷◌, ◌++◌, Option, none, some, ltb, if◌then◌else◌, Result,
  ok, err, map, and_then,
}
use custodly.Text.{Text, codes, eq_text, join}
use custodly.Map.{Map, get}
use custodly.Tier.{Tier, score}
use custodly.Tier.Scope.{assess_github_scope}

-- `BTreeMap<String, String>`.
abbrev pub Permissions : Type 0
Permissions = Map Text

-- The errors of `jsonwebtoken` and `reqwest` are parameters.
pub data GithubError (JwtError RequestError : Type 0) : Type 0 where
  jwt : JwtError → GithubError JwtError RequestError
  request : RequestError → GithubError JwtError RequestError
  api : (status : ℕ) (body : Text) → GithubError JwtError RequestError
  scope_creep : (requested granted : Permissions) → GithubError JwtError RequestError
  unrecognized_permission : (granted : Permissions) → GithubError JwtError RequestError

pub record AppCredentials : Type 0 where
  pub app_id : ℕ
  pub private_key_pem : Text

pub record RequestedGrant : Type 0 where
  pub installation_id : ℕ
  pub permissions : Permissions
  pub repository_ids : Option (List ℕ)

pub record MintedToken (DateTime : Type 0) : Type 0 where
  pub token : Text
  pub expires_at : DateTime
  pub granted_permissions : Permissions
  pub scope_string : Text
  pub tier : Tier

pub record InstallationTokenResponse (DateTime : Type 0) : Type 0 where
  pub token : Text
  pub expires_at : DateTime
  pub permissions : Permissions

-- `format!("{resource}:{level}")`.
abbrev pub grant_text : Text × Text → Text
grant_text (resource, level) = resource ++ (b':' ∷ level)

unfoldable pub scope_of : Permissions → Text
scope_of permissions = join (b',' ∷ []) (map grant_text permissions)

-- `MintedToken::from_response`.
unfoldable pub from_response :
    {DateTime : Type 0} → InstallationTokenResponse DateTime → MintedToken DateTime
from_response resp = record {
  token = resp.token;
  expires_at = resp.expires_at;
  granted_permissions = resp.permissions;
  scope_string = scope_of resp.permissions;
  tier = score (assess_github_scope (scope_of resp.permissions));
}

unfoldable pub level_rank : Text → Option ℕ
level_rank level =
    if eq_text level (codes "read")
    then some 0
    else if eq_text level (codes "write")
    then some 1
    else none

-- `unwrap_or(u8::MAX)`.
abbrev pub rank_or_max : Option ℕ → ℕ
rank_or_max none = 255
rank_or_max (some r) = r

abbrev pub is_baseline : Text → Text → Bool
is_baseline resource level = eq_text resource (codes "metadata") && eq_text level (codes "read")

module _ {J R : Type 0} (requested granted : Permissions) where
  -- The body of the loop, behind the baseline test.
  unfoldable pub verify_level : Text → Option Text → Result (GithubError J R) (Unit {0})
  verify_level level none = err (scope_creep requested granted)
  verify_level level (some requested_level) = elim (level_rank level) [
    | none ↦ err (unrecognized_permission granted)
    | some granted_rank ↦
        if ltb (rank_or_max (level_rank requested_level)) granted_rank
        then err (scope_creep requested granted)
        else ok tt
  ]

  unfoldable pub verify_entry : Text → Text → Result (GithubError J R) (Unit {0})
  verify_entry resource level =
      if is_baseline resource level then ok tt else verify_level level (get resource requested)

  unfoldable pub verify_entries : Permissions → Result (GithubError J R) (Unit {0})
  verify_entries [] = ok tt
  verify_entries ((resource, level) ∷ rest) =
      and_then (verify_entry resource level) (λ _. verify_entries rest)

-- `verify_no_scope_creep`.
unfoldable pub verify_no_scope_creep :
    {J R : Type 0} → Permissions → Permissions → Result (GithubError J R) (Unit {0})
verify_no_scope_creep requested granted = verify_entries requested granted granted
