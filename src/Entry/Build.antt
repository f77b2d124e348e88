-- ===== src/Entry/Build.antt =====
-- Building metadata and entries: what `EntryMetadata::new` refuses, and where an entry is filed.
use custodly.Prelude.{
  ◌≡◌, ◌↔◌, refl, true, ◌∷◌, ◌++◌, arith, is_empty, Option, ok, err, append_assoc, Result,
}
use custodly.Text.{Text, trim}
use custodly.Tier.{Tier}
use custodly.Entry.{
  query_group_path, EntryMetadata, AcquisitionSource, new_metadata, empty_project,
  empty_source_description, new_entry, query, VaultEntry, EntryMetadataError,
}

abbrev pub IsBlank : Text → Type 0
IsBlank s = is_empty (trim s) ≡ true

-- Metadata that records a project and a description.
pub record IsTraceable {T : Type 0} (m : EntryMetadata T) : Type 0 where
  pub has_project : ¬ IsBlank m.project
  pub has_description : ¬ IsBlank m.source_description

module _ {T : Type 0} (m : EntryMetadata T) where
  abbrev rebuilt : Result EntryMetadataError (EntryMetadata T)
  rebuilt =
      new_metadata m.provider m.project m.source_description m.acquired_via m.acquired_at
        m.expires_at m.tier

  -- `new` gives back exactly the fields that it was given if the project and the description are
  -- not blank; otherwise it gives an error, that of the project first.
  pub new_metadata_outcome :
      ((rebuilt ≡ ok m) ↔ IsTraceable m)
      × ((rebuilt ≡ err empty_project) ↔ IsBlank m.project)
      × ((rebuilt ≡ err empty_source_description)
          ↔ ((¬ IsBlank m.project) × IsBlank m.source_description))
  unfolding new_metadata
  new_metadata_outcome = (
    (
      λ h. record { has_project = ground arith; has_description = ground arith },
      λ h. ground (arith, h.has_project, h.has_description),
    ),
    (ground arith, ground arith),
    (ground arith, ground arith),
  )

-- Whatever `new` builds is traceable.
pub new_metadata-IsTraceable :
    {T : Type 0} (provider project description : Text) (via : AcquisitionSource) (at : T)
    (expires : Option T) (tier : Tier) {m : EntryMetadata T}
    → new_metadata provider project description via at expires tier ≡ ok m
    → IsTraceable m
unfolding new_metadata
new_metadata-IsTraceable p j d v a e t h = record {
  has_project = ground arith;
  has_description = ground arith;
}

-- An entry is filed under the path that its own query resolves to.
pub query_group_path-query :
    {T : Type 0} (label secret : Text) (m : EntryMetadata T)
    → query_group_path (query (new_entry label m secret))
      ≡ VaultEntry.group_path (new_entry label m secret)
unfolding query_group_path query new_entry
query_group_path-query label secret m = refl

-- A slash may belong to the project or to the label: the two queries share one path.
query_group_path_ambiguous :
    (a b c : Text)
    → query_group_path (record { project = a ++ (b'/' ∷ b); label = c })
      ≡ query_group_path (record { project = a; label = b ++ (b'/' ∷ c) })
unfolding query_group_path
query_group_path_ambiguous a b c = append_assoc a (b'/' ∷ b) (b'/' ∷ c)

pub new_metadata_fields :
    {T : Type 0} (provider project description : Text) (via : AcquisitionSource) (at : T)
    (expires : Option T) (tier : Tier) (m : EntryMetadata T)
    → new_metadata provider project description via at expires tier ≡ ok m
    → (m.project ≡ project) × (m.tier ≡ tier) × (m.expires_at ≡ expires)
unfolding new_metadata
new_metadata_fields p j d v a e t m h = ground arith

-- Whatever `new` builds has the fields that it was given.
pub new_metadata-eq_ok :
    {T : Type 0} (provider project description : Text) (via : AcquisitionSource) (at : T)
    (expires : Option T) (tier : Tier) (m : EntryMetadata T)
    → new_metadata provider project description via at expires tier ≡ ok m
    → m ≡ record {
      provider = provider;
      project = project;
      source_description = description;
      acquired_via = via;
      acquired_at = at;
      expires_at = expires;
      tier = tier;
    }
unfolding new_metadata
new_metadata-eq_ok p j d v a e t m h = ground arith
