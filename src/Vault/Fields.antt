-- ===== src/Vault/Fields.antt =====
-- One `key=value` line of a Notes field, and what the parser's loop makes of it.
use custodly.Prelude.{All, List, sym, ◌≡◌, refl, ◌∙◌, false, [], ◌∷◌, ◌++◌, arith, ℕ, is_empty, ap}
use custodly.Text.{
  join, lines, Text, has, trim, trim_start, trim_end, is_whitespace, strip_cr, codes, split_once,
}
use custodly.Text.Trim.{trim_end_of_trim, strip_cr_of_trim_end}
use custodly.Text.Split.{lines-join, IsLine, split_once-append}
use custodly.Text.Contains.{has-append}
use custodly.Map.{Map, insert}
use custodly.Vault.Notes.{collect_fields, encode_source}
use custodly.Entry.{AcquisitionSource, migrated, github_app_installation_token, manual_entry}

-- A value on one line, with no white space at its ends.
pub record IsPlain (v : Text) : Type 0 where
  pub one_line : has b'\n' v ≡ false
  pub trimmed : trim v ≡ v

abbrev pub key_line : Text → Text → Text
key_line k v = k ++ (b'=' ∷ v)

trim_end-nonempty :
    (s t : Text) (x : ℕ) → trim_end (x ∷ t) ≡ x ∷ t → trim_end (s ++ (x ∷ t)) ≡ s ++ (x ∷ t)
unfolding trim_end
trim_end-nonempty [] t x h = h
trim_end-nonempty (y ∷ []) t x h = rw h (ground arith)
trim_end-nonempty (y ∷ z ∷ s) t x h = rw (trim_end-nonempty (z ∷ s) t x h) (ground arith)

-- A mark that is no white space ends the trimming of what stands before it.
trim_end-mark :
    (s v : Text) (x : ℕ)
    → is_whitespace x ≡ false
    → trim_end v ≡ v
    → trim_end (s ++ (x ∷ v)) ≡ s ++ (x ∷ v)
trim_end-mark s v x w h = trim_end-nonempty s v x (unfold trim_end in rw h (ground arith))

pub key_line-IsLine : (k v : Text) → has b'\n' k ≡ false → IsPlain v → IsLine (key_line k v)
unfolding has is_whitespace
key_line-IsLine k v h p = (
  has-append b'\n' k (b'=' ∷ v) ∙ ground (arith, p.one_line),
  strip_cr_of_trim_end (key_line k v) (trim_end-mark k v b'=' refl (trim_end_of_trim v p.trimmed)),
)

-- A line of a key without `=` stores its value under that key.
pub collect_fields-key_line :
    (k v : Text) (rest : List Text) (fields : Map Text)
    → has b'=' k ≡ false
    → trim k ≡ k
    → IsPlain v
    → collect_fields (key_line k v ∷ rest) fields ≡ collect_fields rest (insert k v fields)
unfolding collect_fields
collect_fields-key_line k v rest fields h t p = rw (split_once-append b'=' k v h, t, p.trimmed)

-- The text of a migration source may begin with white space, but not end with it.
abbrev pub IsPlainSource : AcquisitionSource → Type 0
IsPlainSource (migrated found_at) = (has b'\n' found_at ≡ false) × (trim_end found_at ≡ found_at)
IsPlainSource _ = Unit

pub encode_source-IsPlain : (s : AcquisitionSource) → IsPlainSource s → IsPlain (encode_source s)
unfolding encode_source has trim trim_start trim_end is_whitespace
encode_source-IsPlain github_app_installation_token p = record { one_line = refl; trimmed = refl }
encode_source-IsPlain manual_entry p = record { one_line = refl; trimmed = refl }
encode_source-IsPlain (migrated found_at) p = record { one_line = p.0; trimmed = rw p.1 }

-- A key that the parser reads back, and a plain value.
abbrev pub IsField : Text × Text → Type 0
IsField (k, v) = (has b'\n' k ≡ false) × (has b'=' k ≡ false) × (trim k ≡ k) × IsPlain v

abbrev pub field_lines : List (Text × Text) → List Text
field_lines [] = []
field_lines ((k, v) ∷ kvs) = key_line k v ∷ field_lines kvs

abbrev pub put_fields : Map Text → List (Text × Text) → Map Text
put_fields fields [] = fields
put_fields fields ((k, v) ∷ kvs) = put_fields (insert k v fields) kvs

abbrev pub header : Text
header = codes "[custodly:metadata:v1]"

pub field_lines-IsLine : (kvs : List (Text × Text)) → All IsField kvs → All IsLine (field_lines kvs)
field_lines-IsLine [] h = tt
field_lines-IsLine ((k, v) ∷ kvs) h = (key_line-IsLine k v h.0.0 h.0.3, field_lines-IsLine kvs h.1)

pub header-IsLine : IsLine header
unfolding has strip_cr
header-IsLine = (refl, refl)

collect_field_lines :
    (kvs : List (Text × Text)) (fields : Map Text)
    → All IsField kvs
    → collect_fields (field_lines kvs) fields ≡ put_fields fields kvs
collect_field_lines [] fields h = unfold collect_fields in refl
collect_field_lines ((k, v) ∷ kvs) fields h =
    collect_fields-key_line k v (field_lines kvs) fields h.0.1 h.0.2 h.0.3
    ∙ collect_field_lines kvs (insert k v fields) h.1

-- The first line has no `=`.
collect_fields-header :
    (rest : List Text) (fields : Map Text)
    → collect_fields (header ∷ rest) fields ≡ collect_fields rest fields
unfolding collect_fields split_once
collect_fields-header rest fields = refl

field_lines-append :
    (kvs : List (Text × Text)) (k v : Text)
    → field_lines (kvs ++ ((k, v) ∷ [])) ≡ field_lines kvs ++ (key_line k v ∷ [])
field_lines-append [] k v = refl
field_lines-append ((j, u) ∷ kvs) k v = ap (◌∷◌ (key_line j u)) (field_lines-append kvs k v)

is_empty-key_line : (k v : Text) → is_empty (key_line k v) ≡ false
is_empty-key_line [] v = refl
is_empty-key_line (x ∷ k) v = refl

-- What the parser collects from a header and lines of fields.
pub collect_fields-lines :
    (kvs : List (Text × Text)) (k v : Text)
    → All IsField (kvs ++ ((k, v) ∷ []))
    → All IsField kvs
    → collect_fields
        (lines (join (b'\n' ∷ []) (header ∷ field_lines kvs ++ (key_line k v ∷ []))))
        []
      ≡ put_fields [] (kvs ++ ((k, v) ∷ []))
collect_fields-lines kvs k v h g =
    let whole = rw (field_lines-append kvs k v) at (field_lines-IsLine (kvs ++ ((k, v) ∷ [])) h) in
    ap (λ ls. collect_fields ls [])
      (lines-join header (field_lines kvs) (key_line k v) (header-IsLine, whole)
        (header-IsLine, field_lines-IsLine kvs g) (is_empty-key_line k v))
    ∙ collect_fields-header _ _
    ∙ ap (λ ls. collect_fields ls []) (sym (field_lines-append kvs k v))
    ∙ collect_field_lines (kvs ++ ((k, v) ∷ [])) [] h
