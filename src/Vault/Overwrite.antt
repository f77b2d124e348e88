-- ===== src/Vault/Overwrite.antt =====
-- What the Notes text loses: a newline in a field, and an expiry that does not parse.
use custodly.Prelude.{
  ◌≡◌, refl, ◌∙◌, ap, [], ◌∷◌, ◌++◌, Option, none, some, append_assoc, inl, inr, Bool-cases,
  is_empty, ◌>>=◌, arith,
}
use custodly.Text.{
  has, trim, trim_start, trim_end, is_whitespace, eq_text, Text, codes, join, lines,
}
use custodly.Map.{Map, insert, get, lt_text}
use custodly.Chrono.{Chrono, IsRfc3339}
use custodly.Entry.{EntryMetadata, AcquisitionSource, new_metadata}
use custodly.Tier.{Tier}
use custodly.Map.Laws.{get-insert}
use custodly.Entry.Build.{IsTraceable}
use custodly.Vault.Fields.{IsPlain, header, field_lines, put_fields}
use custodly.Vault.RoundTrip.{IsWritable, entries, tier_entry, last, collected, decode_stored}
use custodly.Vault.Reads.{assemble}
use custodly.Vault.Notes.{
  decode_source, decode_tier, decode_expiry, encode_metadata, decode_metadata, decode_fields,
  collect_fields,
}

-- Metadata whose source description goes on with a line of its own.
abbrev pub with_line : {T : Type 0} → EntryMetadata T → Text → EntryMetadata T
with_line m line = record m { source_description = m.source_description ++ (b'\n' ∷ line) }

module _ (c : Chrono) (laws : IsRfc3339 c) (m : EntryMetadata c.DateTime) (other : Text) where
  encode_metadata-with_line :
      encode_metadata c (with_line m (codes "project=" ++ other))
      ≡ join (b'\n' ∷ []) (
          header ∷ field_lines (entries c laws m ((codes "project", other) ∷ []))
          ++ (last c laws m ∷ []))
  unfolding encode_metadata join
  encode_metadata-with_line =
      ap
        (λ s.
          codes "[custodly:metadata:v1]\nprovider="
          ++ (m.provider
              ++ (codes "\nproject=" ++ (m.project ++ (codes "\nsource_description=" ++ s)))))
        (append_assoc m.source_description (codes "\nproject=" ++ other) _)

  same_fields :
      put_fields [] (entries c laws m ((codes "project", other) ∷ []) ++ (tier_entry c laws m ∷ []))
      ≡ put_fields []
          (entries c laws (record m { project = other }) [] ++ (tier_entry c laws m ∷ []))
  unfolding insert lt_text eq_text
  same_fields = refl

  -- If the source description of writable metadata goes on, behind a newline, with `project=` and
  -- another project, the text reads back as metadata of that other project, with the rest of the
  -- source description lost to it.
  pub decode_metadata-with_line :
      IsWritable m
      → IsPlain other
      → IsTraceable (record m { project = other })
      → decode_metadata c (encode_metadata c (with_line m (codes "project=" ++ other)))
        ≡ some (record m { project = other })
  unfolding decode_metadata has trim trim_start trim_end is_whitespace
  decode_metadata-with_line w p traceable =
      ap (λ s. decode_fields c (collect_fields (lines s) [])) encode_metadata-with_line
      ∙ ap (decode_fields c)
          (collected c laws m w ((codes "project", other) ∷ []) ((refl, refl, refl, p), tt))
      ∙ ap (decode_fields c) same_fields
      ∙ decode_stored c laws (record m { project = other }) traceable

module _ {T : Type 0} where
  assemble_other_expiry :
      (via : Option AcquisitionSource) (tier : Option Tier) (at e f : Option T)
      (provider project description : Option Text) (m : EntryMetadata T)
      → assemble via tier at e provider project description ≡ some m
      → assemble via tier at f provider project description ≡ some (record m { expires_at = f })
  unfolding new_metadata
  assemble_other_expiry none t a e f p j d m h = cc
  assemble_other_expiry (some v) none a e f p j d m h = cc
  assemble_other_expiry (some v) (some t) none e f p j d m h = cc
  assemble_other_expiry (some v) (some t) (some a) e f none j d m h = cc
  assemble_other_expiry (some v) (some t) (some a) e f (some p) none d m h = cc
  assemble_other_expiry (some v) (some t) (some a) e f (some p) (some j) none m h = cc
  assemble_other_expiry (some v) (some t) (some a) e f (some p) (some j) (some d) m h = ground arith

-- A Notes field whose `expires_at` does not parse reads as one without an expiry, and everything
-- else in it as before.
decode_fields_bad_expiry :
    (c : Chrono) (fields : Map Text) (m : EntryMetadata c.DateTime) (s : Text)
    → decode_fields c fields ≡ some m
    → c.parse s ≡ none
    → decode_fields c (insert (codes "expires_at") s fields) ≡ some (record m { expires_at = none })
unfolding decode_fields eq_text
decode_fields_bad_expiry c fields m s h k =
    let unparsed : decode_expiry c (some s) ≡ none = elim (Bool-cases (is_empty s)) [
      | inl e ↦ rw e
      | inr e ↦ rw (e, k)
    ] in
    let looked = λ (q : Text). get-insert q (codes "expires_at") s fields in
    rw
      (
        looked (codes "acquired_via"),
        looked (codes "tier"),
        looked (codes "acquired_at"),
        looked (codes "expires_at"),
        looked (codes "provider"),
        looked (codes "project"),
        looked (codes "source_description"),
      )
      (assemble_other_expiry (get (codes "acquired_via") fields >>= decode_source)
          (get (codes "tier") fields >>= decode_tier) (get (codes "acquired_at") fields >>= c.parse)
          (decode_expiry c (get (codes "expires_at") fields)) (decode_expiry c (some s))
          (get (codes "provider") fields) (get (codes "project") fields)
          (get (codes "source_description") fields) m h
        ∙ ap (λ e. some (record m { expires_at = e })) unparsed)
