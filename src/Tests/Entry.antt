-- ===== src/Tests/Entry.antt =====
-- Entries and queries.
use custodly.Prelude.{ℕ, ◌≡◌, ◌↔◌, ok, err, none, ◌⊎◌}
use custodly.Text.{codes}
use custodly.Tier.{tier0}
use custodly.Entry.{
  EntryMetadata, manual_entry, SecretQuery, query_group_path, new_metadata, empty_project,
  empty_source_description,
}
use custodly.Entry.Build.{IsBlank, IsTraceable, new_metadata_outcome}
use custodly.Entry.Path.{IsMoved, query_group_path-eq_iff}

abbrev a_key : EntryMetadata ℕ
a_key = record {
  provider = codes "github";
  project = codes "redaktly";
  source_description = codes "a key";
  acquired_via = manual_entry;
  acquired_at = 7;
  expires_at = none;
  tier = tier0;
}

abbrev a_query : SecretQuery
a_query = record { project = codes "redaktly"; label = codes "pat" }

new_metadata_outcome_example :
    let built =
      new_metadata {DateTime = ℕ}
        (codes "github")
        (codes "redaktly")
        (codes "a key")
        manual_entry
        7
        none
        tier0 in
    ((built ≡ ok a_key) ↔ IsTraceable a_key)
    × ((built ≡ err empty_project) ↔ IsBlank (codes "redaktly"))
    × ((built ≡ err empty_source_description)
        ↔ ((¬ IsBlank (codes "redaktly")) × IsBlank (codes "a key")))
new_metadata_outcome_example = new_metadata_outcome a_key

abbrev in_project : SecretQuery
in_project = record { project = codes "team/app"; label = codes "key" }

abbrev in_label : SecretQuery
in_label = record { project = codes "team"; label = codes "app/key" }

query_group_path-eq_iff_example :
    (query_group_path in_project ≡ query_group_path in_label)
    ↔ ((in_project ≡ in_label) ⊎ IsMoved in_project in_label ⊎ IsMoved in_label in_project)
query_group_path-eq_iff_example = query_group_path-eq_iff in_project in_label
