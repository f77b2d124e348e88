-- ===== src/Unit/Entry.antt =====
-- The tests of crates/custodly-core/src/entry.rs, at any time.
use custodly.Prelude.{◌≡◌, refl, ok, err, none}
use custodly.Text.{codes, trim, trim_start, trim_end, is_whitespace}
use custodly.Tier.{tier0}
use custodly.Entry.{
  EntryMetadata, manual_entry, new_metadata, empty_project, empty_source_description, new_entry,
  query, query_group_path,
}

module _ {DateTime : Type 0} (now : DateTime) where
  abbrev pub NewRefusesAnEmptyProject : Type 0
  NewRefusesAnEmptyProject =
      new_metadata (codes "github") (codes "") (codes "some key") manual_entry now none tier0
      ≡ err empty_project

  abbrev pub NewRefusesAnEmptySourceDescription : Type 0
  NewRefusesAnEmptySourceDescription =
      new_metadata (codes "github") (codes "redaktly") (codes "") manual_entry now none tier0
      ≡ err empty_source_description

  abbrev pub GroupPathIsProjectSlashLabel : Type 0
  GroupPathIsProjectSlashLabel =
      (metadata : EntryMetadata DateTime) × (new_metadata (codes "github") (codes "redaktly")
          (codes "a key") manual_entry now none tier0
        ≡ ok metadata)
      × (let entry = new_entry (codes "github-pat") metadata (codes "sk-abc") in
          (entry.group_path ≡ codes "redaktly/github-pat")
          × (query_group_path (query entry) ≡ codes "redaktly/github-pat"))

  entries_pass :
      NewRefusesAnEmptyProject × NewRefusesAnEmptySourceDescription × GroupPathIsProjectSlashLabel
  unfolding new_metadata new_entry query query_group_path trim trim_start trim_end is_whitespace
  entries_pass = (refl, refl, (_, refl, (refl, refl)))
