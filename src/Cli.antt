-- ===== src/Cli.antt =====
-- crates/custodly-cli/src/main.rs: the arguments and `parse_permission`. The subcommands stand in
-- Cli/Mint.antt, Cli/Credential.antt and Cli/Main.antt; `clap` and logging are left out.
pub mod Mint
pub mod Flow
pub mod Leave
pub mod Refuse
pub mod Deposit
pub mod Live
pub mod Agree
pub mod Apart
pub mod Keeps
pub mod Audit
pub mod Before
pub mod History
pub mod Origin
pub mod Stages
pub mod Stop
pub mod Reuse
pub mod Main
pub mod Credential
pub mod Permission
use custodly.Prelude.{
  ℕ, Bool, List, [], ◌∷◌, ◌++◌, Option, none, some, Result, ok, err, if◌then◌else◌, ◌||◌, is_empty,
  and_then, ok_or,
}
use custodly.Text.{Text, codes, split_once}
use custodly.Map.{from_list}
use custodly.Github.{AppCredentials, RequestedGrant}

-- `parse_permission`; the error shows the text that was given.
abbrev pub nonempty_pair : Text → Text × Text → Result Text (Text × Text)
nonempty_pair raw (resource, level) =
    if is_empty resource || is_empty level then err raw else ok (resource, level)

unfoldable pub parse_permission : Text → Result Text (Text × Text)
parse_permission raw = and_then (ok_or raw (split_once b':' raw)) (nonempty_pair raw)

-- The fields of `Command::MintGithub`.
pub record MintGithub : Type 0 where
  pub app_id : ℕ
  pub installation_id : ℕ
  pub permissions : List (Text × Text)
  pub repository_ids : List ℕ
  pub project : Text
  pub label : Text
  pub vault : Text
  pub cli_path : Text
  pub keyring_name : Text
  pub for_recipient : Bool
  pub ferryman_base_url : Option Text
  pub ferryman_project : Option Text
  pub ferryman_token : Option Text

abbrev pub app_of : MintGithub → Text → AppCredentials
app_of args pem = record { app_id = args.app_id; private_key_pem = pem }

abbrev pub repositories : List ℕ → Option (List ℕ)
repositories ids = if is_empty ids then none else some ids

abbrev pub grant_of : MintGithub → RequestedGrant
grant_of args = record {
  installation_id = args.installation_id;
  permissions = from_list args.permissions;
  repository_ids = repositories args.repository_ids;
}

-- The three flags that a deposit needs, together.
abbrev pub ferryman_flags : Option Text → Option Text → Option Text → Option (Text × Text × Text)
ferryman_flags (some b) (some p) (some t) = some (b, p, t)
ferryman_flags _ _ _ = none
