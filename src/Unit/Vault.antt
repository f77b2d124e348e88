-- ===== src/Unit/Vault.antt =====
-- The test of crates/custodly-vault/src/vault.rs, at any time.
use custodly.Prelude.{◌≡◌, refl, ok, some, none}
use custodly.Text.{codes, has, trim, trim_start, trim_end, is_whitespace}
use custodly.Chrono.{Chrono, IsRfc3339}
use custodly.Tier.{tier1}
use custodly.Entry.{EntryMetadata, github_app_installation_token, new_metadata}
use custodly.Vault.Notes.{encode_metadata, decode_metadata}
use custodly.Vault.RoundTrip.{IsWritable, decode_metadata-encode_metadata}

module _ (c : Chrono) (now : c.DateTime) where
  abbrev pub MetadataRoundTripsThroughNotesEncoding : Type 0
  MetadataRoundTripsThroughNotesEncoding =
      (m : EntryMetadata c.DateTime) × (decoded : EntryMetadata c.DateTime) × (new_metadata
          (codes "github") (codes "redaktly") (codes "GitHub App installation token, contents:read")
          github_app_installation_token now none tier1
        ≡ ok m)
      × (decode_metadata c (encode_metadata c m) ≡ some decoded)
      × (decoded.project ≡ m.project)
      × (decoded.tier ≡ m.tier)

  abbrev m : EntryMetadata c.DateTime
  m = record {
    provider = codes "github";
    project = codes "redaktly";
    source_description = codes "GitHub App installation token, contents:read";
    acquired_via = github_app_installation_token;
    acquired_at = now;
    expires_at = none;
    tier = tier1;
  }

  m-IsWritable : IsWritable m
  unfolding has trim trim_start trim_end is_whitespace
  m-IsWritable = record {
    traceable = record { has_project = λ h. cc; has_description = λ h. cc };
    provider = record { one_line = refl; trimmed = refl };
    project = record { one_line = refl; trimmed = refl };
    source_description = record { one_line = refl; trimmed = refl };
    source = tt;
  }

  notes_pass : IsRfc3339 c → MetadataRoundTripsThroughNotesEncoding
  unfolding new_metadata trim trim_start trim_end is_whitespace
  notes_pass laws = (m, m, refl, decode_metadata-encode_metadata c laws m m-IsWritable, refl, refl)
