-- ===== src/Vault/RoundTrip.antt =====
-- Metadata written into a Notes field reads back.
use custodly.Prelude.{◌≡◌, refl, ◌∙◌, ap, List, [], ◌∷◌, ◌++◌, Option, none, some, All, All-append}
use custodly.Text.{
  Text, codes, has, trim, trim_start, trim_end, lines, join, eq_text, strip_prefix, is_whitespace,
}
use custodly.Text.Split.{IsLine}
use custodly.Map.{Map, insert, get, lt_text}
use custodly.Tier.{Tier, tier0, tier1, tier2}
use custodly.Entry.{
  EntryMetadata, AcquisitionSource, github_app_installation_token, manual_entry, migrated,
}
use custodly.Entry.Build.{IsTraceable, new_metadata_outcome}
use custodly.Chrono.{Chrono, IsRfc3339}
use custodly.Vault.Fields.{
  IsPlain, IsPlainSource, key_line, encode_source-IsPlain, IsField, field_lines, put_fields, header,
  header-IsLine, field_lines-IsLine, collect_fields-lines,
}
use custodly.Vault.Notes.{
  encode_source, encode_tier, encode_expiry, encode_metadata, decode_source, decode_tier,
  decode_expiry, decode_fields, decode_metadata, collect_fields,
}

-- Metadata that `EntryMetadata::new` accepts, whose texts each stay on one line and have no white
-- space at their ends.
pub record IsWritable {T : Type 0} (m : EntryMetadata T) : Type 0 where
  pub traceable : IsTraceable m
  pub provider : IsPlain m.provider
  pub project : IsPlain m.project
  pub source_description : IsPlain m.source_description
  pub source : IsPlainSource m.acquired_via

encode_tier-IsPlain : (t : Tier) → IsPlain (encode_tier t)
unfolding encode_tier has trim trim_start trim_end is_whitespace
encode_tier-IsPlain tier0 = record { one_line = refl; trimmed = refl }
encode_tier-IsPlain tier1 = record { one_line = refl; trimmed = refl }
encode_tier-IsPlain tier2 = record { one_line = refl; trimmed = refl }

decode_tier-encode_tier : (t : Tier) → decode_tier (encode_tier t) ≡ some t
unfolding encode_tier decode_tier eq_text
decode_tier-encode_tier tier0 = refl
decode_tier-encode_tier tier1 = refl
decode_tier-encode_tier tier2 = refl

decode_source-encode_source : (s : AcquisitionSource) → decode_source (encode_source s) ≡ some s
unfolding encode_source decode_source eq_text strip_prefix
decode_source-encode_source github_app_installation_token = refl
decode_source-encode_source manual_entry = refl
decode_source-encode_source (migrated found_at) = refl

module _ (c : Chrono) (laws : IsRfc3339 c) (m : EntryMetadata c.DateTime) where
  -- The fields up to the expiry; the source's are followed by `extra`.
  abbrev pub entries : List (Text × Text) → List (Text × Text)
  entries extra =
      (codes "provider", m.provider)
        ∷ (codes "project", m.project)
        ∷ (codes "source_description", m.source_description)
        ∷ extra
      ++ ((codes "acquired_via", encode_source m.acquired_via)
          ∷ (codes "acquired_at", c.to_rfc3339 m.acquired_at)
          ∷ (codes "expires_at", encode_expiry c m.expires_at)
          ∷ [])

  -- The last field.
  abbrev pub tier_entry : Text × Text
  tier_entry = (codes "tier", encode_tier m.tier)

  abbrev pub middle : List Text
  middle = field_lines (entries [])

  abbrev pub last : Text
  last = key_line tier_entry.0 tier_entry.1

  pub encode_metadata-join :
      encode_metadata c m ≡ join (b'\n' ∷ []) (header ∷ middle ++ (last ∷ []))
  unfolding encode_metadata join
  encode_metadata-join = refl

  time-IsPlain : (t : c.DateTime) → IsPlain (c.to_rfc3339 t)
  time-IsPlain t = record { one_line = laws.one_line t; trimmed = laws.trimmed t }

  expiry-IsPlain : (o : Option c.DateTime) → IsPlain (encode_expiry c o)
  unfolding has trim trim_start trim_end
  expiry-IsPlain none = record { one_line = refl; trimmed = refl }
  expiry-IsPlain (some t) = time-IsPlain t

  abbrev stored : Map Text
  stored = put_fields [] (entries [] ++ (tier_entry ∷ []))

  decode_expiry-encode_expiry :
      (o : Option c.DateTime) → decode_expiry c (some (encode_expiry c o)) ≡ o
  decode_expiry-encode_expiry none = refl
  decode_expiry-encode_expiry (some t) = rw (laws.nonempty t) (laws.parse-to_rfc3339 t)

  pub decode_stored : IsTraceable m → decode_fields c stored ≡ some m
  unfolding decode_fields get insert eq_text lt_text
  decode_stored h = rw (
    decode_source-encode_source m.acquired_via,
    decode_tier-encode_tier m.tier,
    laws.parse-to_rfc3339 m.acquired_at,
    decode_expiry-encode_expiry m.expires_at,
    (new_metadata_outcome m).0.1 h,
  )

  module _ (w : IsWritable m) where
    open w use {traceable, provider, project, source_description, source}

    tail-IsField : All IsField (
        (codes "acquired_via", encode_source m.acquired_via)
        ∷ (codes "acquired_at", c.to_rfc3339 m.acquired_at)
        ∷ (codes "expires_at", encode_expiry c m.expires_at)
        ∷ [])
    unfolding has trim trim_start trim_end is_whitespace
    tail-IsField = (
      (refl, refl, refl, encode_source-IsPlain _ source),
      (
        (refl, refl, refl, time-IsPlain m.acquired_at),
        ((refl, refl, refl, expiry-IsPlain m.expires_at), tt),
      ),
    )

    pub entries-IsField :
        (extra : List (Text × Text)) → All IsField extra → All IsField (entries extra)
    unfolding has trim trim_start trim_end is_whitespace
    entries-IsField extra e = (
      (refl, refl, refl, provider),
      (
        (refl, refl, refl, project),
        ((refl, refl, refl, source_description), All-append IsField extra _ e tail-IsField),
      ),
    )

    tier-IsField : IsField tier_entry
    unfolding has trim trim_start trim_end is_whitespace
    tier-IsField = (refl, refl, refl, encode_tier-IsPlain m.tier)

    pub notes-IsLine : All IsLine (header ∷ middle ++ (last ∷ []))
    notes-IsLine = (
      header-IsLine,
      All-append IsLine middle (last ∷ []) (field_lines-IsLine (entries []) (entries-IsField [] tt))
          (field_lines-IsLine (tier_entry ∷ []) (tier-IsField, tt)),
    )

    -- What the parser collects from the fields with some that follow the source's.
    pub collected :
        (extra : List (Text × Text))
        → All IsField extra
        → collect_fields
            (lines (join (b'\n' ∷ []) (header ∷ field_lines (entries extra) ++ (last ∷ []))))
            []
          ≡ put_fields [] (entries extra ++ (tier_entry ∷ []))
    collected extra e =
        collect_fields-lines (entries extra) tier_entry.0 tier_entry.1
          (All-append IsField (entries extra) (tier_entry ∷ []) (entries-IsField extra e)
            (tier-IsField, tt))
          (entries-IsField extra e)

    -- Every field of writable metadata, the expiry included, reads back as it was written.
    pub decode_metadata-encode_metadata : decode_metadata c (encode_metadata c m) ≡ some m
    unfolding decode_metadata
    decode_metadata-encode_metadata =
        ap (λ s. decode_fields c (collect_fields (lines s) [])) encode_metadata-join
        ∙ ap (decode_fields c) (collected [] tt)
        ∙ decode_stored traceable
