-- ===== src/Entry.antt =====
-- crates/custodly-core/src/entry.rs: what the vault stores with a secret, and the query for one.
pub mod Path
pub mod Build
use custodly.Prelude.{List, ◌++◌, ◌∷◌, Option, if◌then◌else◌, is_empty, Result, ok, err}
use custodly.Text.{Text, trim}
use custodly.Tier.{Tier}

pub data AcquisitionSource : Type 0 where
  github_app_installation_token manual_entry : AcquisitionSource
  migrated : (found_at : Text) → AcquisitionSource

pub data EntryMetadataError : Type 0 where
  empty_project empty_source_description : EntryMetadataError

pub record EntryMetadata (DateTime : Type 0) : Type 0 where
  pub provider : Text
  pub project : Text
  pub source_description : Text
  pub acquired_via : AcquisitionSource
  pub acquired_at : DateTime
  pub expires_at : Option DateTime
  pub tier : Tier

pub record SecretQuery : Type 0 where
  pub project : Text
  pub label : Text

-- `format!("{}/{}", project, label)`.
abbrev pub path_of : Text → Text → Text
path_of project label = project ++ (b'/' ∷ label)

-- `SecretQuery::group_path`.
unfoldable pub query_group_path : SecretQuery → Text
query_group_path q = path_of q.project q.label

module _ {DateTime : Type 0} where
  -- `EntryMetadata::new`.
  unfoldable pub new_metadata :
      Text
      → Text
      → Text
      → AcquisitionSource
      → DateTime
      → Option DateTime
      → Tier
      → Result EntryMetadataError (EntryMetadata DateTime)
  new_metadata provider project source_description acquired_via acquired_at expires_at tier =
      if is_empty (trim project)
      then err empty_project
      else if is_empty (trim source_description)
      then err empty_source_description
      else ok (record {
        provider = provider;
        project = project;
        source_description = source_description;
        acquired_via = acquired_via;
        acquired_at = acquired_at;
        expires_at = expires_at;
        tier = tier;
      })

pub record VaultEntry (DateTime : Type 0) : Type 0 where
  pub group_path : Text
  pub label : Text
  pub metadata : EntryMetadata DateTime
  pub secret : Text

module _ {DateTime : Type 0} where
  -- `VaultEntry::new`.
  unfoldable pub new_entry : Text → EntryMetadata DateTime → Text → VaultEntry DateTime
  new_entry label metadata secret = record {
    group_path = path_of metadata.project label;
    label = label;
    metadata = metadata;
    secret = secret;
  }

  -- `VaultEntry::query`.
  unfoldable pub query : VaultEntry DateTime → SecretQuery
  query e = record { project = e.metadata.project; label = e.label }
