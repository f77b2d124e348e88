-- ===== src/Tests/Vault.antt =====
-- Notes fields, with a time type of ticks.
use custodly.Prelude.{
  ◌==◌, if◌then◌else◌, ℕ, zero, suc, ◌≡◌, refl, ap, Option, none, some, [], ◌∷◌, false, length,
  ◌++◌, ◌↔◌,
}
use custodly.Prelude.Int.{pos}
use custodly.Text.{Text, codes, has, trim, trim_start, trim_end, is_whitespace, lines}
use custodly.Chrono.{Chrono, IsRfc3339}
use custodly.Tier.{tier1}
use custodly.Entry.{EntryMetadata, migrated}
use custodly.Vault.Notes.{encode_metadata, decode_metadata}
use custodly.Vault.Reads.{Reads, decode_metadata_iff}
use custodly.Vault.Overwrite.{with_line, decode_metadata-with_line}
use custodly.Vault.Fields.{IsPlain}
use custodly.Entry.Build.{IsTraceable}
use custodly.Vault.RoundTrip.{IsWritable, decode_metadata-encode_metadata}

abbrev ticks : ℕ → Text
ticks zero = []
ticks (suc n) = b'1' ∷ ticks n

abbrev tick_time : Text → Option ℕ
tick_time [] = none
tick_time (c ∷ s) = if c == b'T' then some (length s) else none

abbrev pub tick_clock : Chrono
tick_clock = record {
  DateTime = ℕ;
  to_rfc3339 = λ t. b'T' ∷ ticks t;
  parse = tick_time;
  timestamp = λ t. pos t;
  plus = λ t d. t;
  minus = λ t d. t;
}

length-ticks : (t : ℕ) → length (ticks t) ≡ t
length-ticks zero = refl
length-ticks (suc t) = ap suc (length-ticks t)

has-ticks : (t : ℕ) → has b'\n' (ticks t) ≡ false
unfolding has
has-ticks zero = refl
has-ticks (suc t) = has-ticks t

trim_end-ticks : (t : ℕ) → trim_end (ticks t) ≡ ticks t
unfolding trim_end is_whitespace
trim_end-ticks zero = refl
trim_end-ticks (suc t) = ap (◌∷◌ b'1') (trim_end-ticks t)

pub tick_clock-IsRfc3339 : IsRfc3339 tick_clock
unfolding has trim trim_start trim_end is_whitespace
tick_clock-IsRfc3339 = record {
  parse-to_rfc3339 = λ t. ap some (length-ticks t);
  one_line = has-ticks;
  trimmed = λ t. ap (◌∷◌ b'T') (trim_end-ticks t);
  nonempty = λ t. refl;
}

abbrev pub moved_key : EntryMetadata ℕ
moved_key = record {
  provider = codes "openai";
  project = codes "redaktly";
  source_description = codes "key = found in an env file";
  acquired_via = migrated (codes " /srv/.env");
  acquired_at = 3;
  expires_at = some 9;
  tier = tier1;
}

pub moved_key-IsWritable : IsWritable moved_key
unfolding has trim trim_start trim_end is_whitespace
moved_key-IsWritable = record {
  traceable = record { has_project = λ h. cc; has_description = λ h. cc };
  provider = record { one_line = refl; trimmed = refl };
  project = record { one_line = refl; trimmed = refl };
  source_description = record { one_line = refl; trimmed = refl };
  source = (refl, refl);
}

decode_metadata-encode_metadata_example :
    decode_metadata tick_clock (encode_metadata tick_clock moved_key) ≡ some moved_key
decode_metadata-encode_metadata_example =
    decode_metadata-encode_metadata tick_clock tick_clock-IsRfc3339 moved_key moved_key-IsWritable

abbrev elsewhere : Text
elsewhere = codes "hijacked"

elsewhere-IsPlain : IsPlain elsewhere
unfolding has trim trim_start trim_end is_whitespace
elsewhere-IsPlain = record { one_line = refl; trimmed = refl }

hijacked-IsTraceable : IsTraceable (record moved_key { project = elsewhere })
unfolding trim trim_start trim_end is_whitespace
hijacked-IsTraceable = record { has_project = λ h. cc; has_description = λ h. cc }

decode_metadata-with_line_example :
    decode_metadata tick_clock
      (encode_metadata tick_clock (with_line moved_key (codes "project=" ++ codes "hijacked")))
    ≡ some (record moved_key { project = codes "hijacked" })
decode_metadata-with_line_example =
    decode_metadata-with_line tick_clock tick_clock-IsRfc3339 moved_key elsewhere
      moved_key-IsWritable elsewhere-IsPlain hijacked-IsTraceable

abbrev hand_edited : Text
hand_edited = codes "tier=0\n seen by an operator \n" ++ encode_metadata tick_clock moved_key

decode_metadata_iff_example :
    (decode_metadata tick_clock hand_edited ≡ some moved_key)
    ↔ Reads tick_clock (lines hand_edited) moved_key
decode_metadata_iff_example = decode_metadata_iff tick_clock hand_edited moved_key
