-- ===== src/Vault/Notes.antt =====
-- `encode_metadata` and `decode_metadata` of crates/custodly-vault/src/vault.rs: the text of an
-- entry's Notes field.
use custodly.Prelude.{
  List, [], ◌∷◌, ◌++◌, Option, none, some, if◌then◌else◌, is_empty, ◌>>=◌, to_option,
}
use custodly.Text.{Text, codes, eq_text, trim, split_once, lines, strip_prefix}
use custodly.Map.{Map, get, insert}
use custodly.Tier.{Tier, tier0, tier1, tier2}
use custodly.Entry.{
  AcquisitionSource, github_app_installation_token, manual_entry, migrated, EntryMetadata,
  new_metadata,
}
use custodly.Chrono.{Chrono}

unfoldable pub encode_source : AcquisitionSource → Text
encode_source github_app_installation_token = codes "github-app-installation-token"
encode_source manual_entry = codes "manual-entry"
encode_source (migrated found_at) = codes "migrated:" ++ found_at

unfoldable pub encode_tier : Tier → Text
encode_tier tier0 = codes "0"
encode_tier tier1 = codes "1"
encode_tier tier2 = codes "2"

-- `starts_with("migrated:")`, and the text behind it.
abbrev pub decode_migrated : Option Text → Option AcquisitionSource
decode_migrated none = none
decode_migrated (some found_at) = some (migrated found_at)

unfoldable pub decode_source : Text → Option AcquisitionSource
decode_source s =
    if eq_text s (codes "github-app-installation-token")
    then some github_app_installation_token
    else if eq_text s (codes "manual-entry")
    then some manual_entry
    else decode_migrated (strip_prefix (codes "migrated:") s)

unfoldable pub decode_tier : Text → Option Tier
decode_tier s =
    if eq_text s (codes "0")
    then some tier0
    else if eq_text s (codes "1")
    then some tier1
    else if eq_text s (codes "2")
    then some tier2
    else none

-- The loop over the lines. The `HashMap` is only written and looked up.
abbrev pub add_field : Option (Text × Text) → Map Text → Map Text
add_field none fields = fields
add_field (some (k, v)) fields = insert (trim k) (trim v) fields

unfoldable pub collect_fields : List Text → Map Text → Map Text
collect_fields [] fields = fields
collect_fields (line ∷ rest) fields = collect_fields rest (add_field (split_once b'=' line) fields)

module _ (c : Chrono) where
  open c use {DateTime, to_rfc3339, parse}

  -- `map(to_rfc3339).unwrap_or_default()`.
  abbrev pub encode_expiry : Option DateTime → Text
  encode_expiry none = []
  encode_expiry (some t) = to_rfc3339 t

  unfoldable pub encode_metadata : EntryMetadata DateTime → Text
  encode_metadata m =
      codes "[custodly:metadata:v1]\nprovider="
      ++ (m.provider
          ++ (codes "\nproject="
              ++ (m.project
                  ++ (codes "\nsource_description="
                      ++ (m.source_description
                          ++ (codes "\nacquired_via="
                              ++ (encode_source m.acquired_via
                                  ++ (codes "\nacquired_at="
                                      ++ (to_rfc3339 m.acquired_at
                                          ++ (codes "\nexpires_at="
                                              ++ (encode_expiry m.expires_at
                                                  ++ (codes "\ntier="
                                                      ++ encode_tier m.tier))))))))))))

  -- `filter(non-empty).and_then(parse().ok())`: a text that does not parse is no expiry.
  abbrev pub decode_expiry : Option Text → Option DateTime
  decode_expiry none = none
  decode_expiry (some s) = if is_empty s then none else parse s

  unfoldable pub decode_fields : Map Text → Option (EntryMetadata DateTime)
  decode_fields fields = do
    acquired_via ← get (codes "acquired_via") fields >>= decode_source
    tier ← get (codes "tier") fields >>= decode_tier
    acquired_at ← get (codes "acquired_at") fields >>= parse
    let expires_at = decode_expiry (get (codes "expires_at") fields)
    provider ← get (codes "provider") fields
    project ← get (codes "project") fields
    source_description ← get (codes "source_description") fields
    to_option
        (new_metadata provider project source_description acquired_via acquired_at expires_at tier)

  unfoldable pub decode_metadata : Text → Option (EntryMetadata DateTime)
  decode_metadata notes = decode_fields (collect_fields (lines notes) [])
