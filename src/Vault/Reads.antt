-- ===== src/Vault/Reads.antt =====
-- What a Notes text reads back as: for each key, the last line that sets it.
use custodly.Prelude.{
  ◌≡◌, ◌↔◌, refl, sym, ap, ◌∙◌, List, [], ◌∷◌, Option, none, some, if◌then◌else◌, ◌>>=◌, to_option,
  arith, to_option-eq_some,
}
use custodly.Text.{Text, codes, eq_text, trim, split_once, lines}
use custodly.Map.{Map, get}
use custodly.Map.Laws.{get-insert}
use custodly.Chrono.{Chrono}
use custodly.Tier.{Tier}
use custodly.Vault.Forms.{
  IsSourceText, IsTierText, IsExpiryText, Says, Says-of, of-Says, decode_source-eq_some,
  decode_tier-eq_some, decode_source-IsSourceText, decode_tier-IsTierText,
  decode_expiry-IsExpiryText, IsExpiryText-decode_expiry,
}
use custodly.Entry.{EntryMetadata, AcquisitionSource, new_metadata}
use custodly.Entry.Build.{
  IsTraceable, new_metadata_outcome, new_metadata-eq_ok, new_metadata-IsTraceable,
}
use custodly.Vault.Notes.{
  decode_source, decode_tier, decode_expiry, decode_fields, decode_metadata, collect_fields,
  add_field,
}

-- The value that a line sets a key to, trimmed, as its key is.
abbrev pub value_of : Text → Option (Text × Text) → Option Text
value_of key none = none
value_of key (some (k, v)) = if eq_text (trim k) key then some (trim v) else none

abbrev pub or_else {ℓ} : {A : Type ℓ} → Option A → Option A → Option A
or_else none b = b
or_else (some a) b = some a

abbrev pub last_value : Text → List Text → Option Text
last_value key [] = none
last_value key (line ∷ rest) = or_else (last_value key rest) (value_of key (split_once b'=' line))

get-add_field :
    (key : Text) (line : Option (Text × Text)) (fields : Map Text)
    → get key (add_field line fields) ≡ or_else (value_of key line) (get key fields)
get-add_field key none fields = refl
get-add_field key (some (k, v)) fields = get-insert key (trim k) (trim v) fields ∙ ground arith

or_else_assoc : {A : Type 0} (a b c : Option A) → or_else a (or_else b c) ≡ or_else (or_else a b) c
or_else_assoc none b c = refl
or_else_assoc (some a) b c = refl

get-collect_fields_onto :
    (key : Text) (ls : List Text) (fields : Map Text)
    → get key (collect_fields ls fields) ≡ or_else (last_value key ls) (get key fields)
unfolding collect_fields
get-collect_fields_onto key [] fields = refl
get-collect_fields_onto key (line ∷ rest) fields =
    get-collect_fields_onto key rest (add_field (split_once b'=' line) fields)
    ∙ ap (or_else (last_value key rest)) (get-add_field key (split_once b'=' line) fields)
    ∙ or_else_assoc (last_value key rest) (value_of key (split_once b'=' line)) (get key fields)

or_else-none : {A : Type 0} (a : Option A) → or_else a none ≡ a
or_else-none none = refl
or_else-none (some a) = refl

get-collect_fields :
    (key : Text) (ls : List Text) → get key (collect_fields ls []) ≡ last_value key ls
unfolding get
get-collect_fields key ls = get-collect_fields_onto key ls [] ∙ or_else-none (last_value key ls)

module _ {T : Type 0} where
  -- The parser with its fields at hand.
  abbrev pub assemble :
      Option AcquisitionSource
      → Option Tier
      → Option T
      → Option T
      → Option Text
      → Option Text
      → Option Text
      → Option (EntryMetadata T)
  assemble via tier at expires_at provider project description = do
    v ← via
    t ← tier
    a ← at
    let e = expires_at
    p ← provider
    j ← project
    d ← description
    to_option (new_metadata p j d v a e t)

  -- The parts that metadata is put together from.
  pub record IsMadeOf (via : Option AcquisitionSource) (tier : Option Tier)
      (at expires_at : Option T) (provider project description : Option Text) (m : EntryMetadata T)
      : Type 0 where
    pub via_is : via ≡ some m.acquired_via
    pub tier_is : tier ≡ some m.tier
    pub at_is : at ≡ some m.acquired_at
    pub expires_is : m.expires_at ≡ expires_at
    pub provider_is : provider ≡ some m.provider
    pub project_is : project ≡ some m.project
    pub description_is : description ≡ some m.source_description
    pub traceable : IsTraceable m

  assemble_of :
      (via : Option AcquisitionSource) (tier : Option Tier) (at e : Option T)
      (provider project description : Option Text) (m : EntryMetadata T)
      → IsMadeOf via tier at e provider project description m
      → assemble via tier at e provider project description ≡ some m
  assemble_of via tier at e p j d m is = rw (
    is.via_is,
    is.tier_is,
    is.at_is,
    ← is.expires_is,
    is.provider_is,
    is.project_is,
    is.description_is,
    (new_metadata_outcome m).0.1 is.traceable,
  )

  assemble-eq_some :
      (via : Option AcquisitionSource) (tier : Option Tier) (at e : Option T)
      (provider project description : Option Text) (m : EntryMetadata T)
      → assemble via tier at e provider project description ≡ some m
      → IsMadeOf via tier at e provider project description m
  assemble-eq_some none t a e p j d m h = cc
  assemble-eq_some (some v) none a e p j d m h = cc
  assemble-eq_some (some v) (some t) none e p j d m h = cc
  assemble-eq_some (some v) (some t) (some a) e none j d m h = cc
  assemble-eq_some (some v) (some t) (some a) e (some p) none d m h = cc
  assemble-eq_some (some v) (some t) (some a) e (some p) (some j) none m h = cc
  assemble-eq_some (some v) (some t) (some a) e (some p) (some j) (some d) m h =
      let built = to_option-eq_some (new_metadata p j d v a e t) m h in
      let is = new_metadata-eq_ok p j d v a e t m built in
      record {
        via_is = ap (λ x. some x.acquired_via) (sym is);
        tier_is = ap (λ x. some x.tier) (sym is);
        at_is = ap (λ x. some x.acquired_at) (sym is);
        expires_is = ap (λ x. x.expires_at) is;
        provider_is = ap (λ x. some x.provider) (sym is);
        project_is = ap (λ x. some x.project) (sym is);
        description_is = ap (λ x. some x.source_description) (sym is);
        traceable = new_metadata-IsTraceable p j d v a e t built;
      }

module _ (c : Chrono) where
  -- Metadata that the lines of a text give: each field from the last line that sets it, provenance
  -- and tier in their written forms, times as `chrono` parses them, and neither project nor
  -- description blank.
  pub record Reads (ls : List Text) (m : EntryMetadata c.DateTime) : Type 0 where
    pub acquired_via : Says (last_value (codes "acquired_via") ls) IsSourceText m.acquired_via
    pub tier : Says (last_value (codes "tier") ls) IsTierText m.tier
    pub acquired_at :
        Says (last_value (codes "acquired_at") ls) (λ t time. c.parse t ≡ some time) m.acquired_at
    pub expires_at : IsExpiryText c (last_value (codes "expires_at") ls) m.expires_at
    pub provider : last_value (codes "provider") ls ≡ some m.provider
    pub project : last_value (codes "project") ls ≡ some m.project
    pub source_description : last_value (codes "source_description") ls ≡ some m.source_description
    pub traceable : IsTraceable m

  -- The same through the parsers of the fields.
  abbrev Parses : List Text → EntryMetadata c.DateTime → Type 0
  Parses ls m =
      IsMadeOf (last_value (codes "acquired_via") ls >>= decode_source)
        (last_value (codes "tier") ls >>= decode_tier)
        (last_value (codes "acquired_at") ls >>= c.parse)
        (decode_expiry c (last_value (codes "expires_at") ls)) (last_value (codes "provider") ls)
        (last_value (codes "project") ls) (last_value (codes "source_description") ls) m

  Parses-Reads : (ls : List Text) (m : EntryMetadata c.DateTime) → Parses ls m → Reads ls m
  Parses-Reads ls m p = record {
    acquired_via =
        Says-of (last_value (codes "acquired_via") ls) IsSourceText decode_source m.acquired_via
          (λ t. decode_source-eq_some t m.acquired_via) p.via_is;
    tier =
        Says-of (last_value (codes "tier") ls) IsTierText decode_tier m.tier
          (λ t. decode_tier-eq_some t m.tier) p.tier_is;
    acquired_at =
        Says-of (last_value (codes "acquired_at") ls) (λ t time. c.parse t ≡ some time) c.parse
          m.acquired_at (λ t h. h) p.at_is;
    expires_at =
        rw p.expires_is (decode_expiry-IsExpiryText c (last_value (codes "expires_at") ls));
    provider = p.provider_is;
    project = p.project_is;
    source_description = p.description_is;
    traceable = p.traceable;
  }

  Reads-Parses : (ls : List Text) (m : EntryMetadata c.DateTime) → Reads ls m → Parses ls m
  Reads-Parses ls m r = record {
    via_is =
        of-Says (last_value (codes "acquired_via") ls) IsSourceText decode_source m.acquired_via
          (λ t. decode_source-IsSourceText t m.acquired_via) r.acquired_via;
    tier_is =
        of-Says (last_value (codes "tier") ls) IsTierText decode_tier m.tier
          (λ t. decode_tier-IsTierText t m.tier) r.tier;
    at_is =
        of-Says (last_value (codes "acquired_at") ls) (λ t time. c.parse t ≡ some time) c.parse
          m.acquired_at (λ t h. h) r.acquired_at;
    expires_is =
        IsExpiryText-decode_expiry c (last_value (codes "expires_at") ls) m.expires_at r.expires_at;
    provider_is = r.provider;
    project_is = r.project;
    description_is = r.source_description;
    traceable = r.traceable;
  }

  decode_metadata-assemble :
      (notes : Text)
      → let value = λ (key : Text). last_value key (lines notes) in
        decode_metadata c notes
        ≡ assemble
            (value (codes "acquired_via") >>= decode_source)
            (value (codes "tier") >>= decode_tier)
            (value (codes "acquired_at") >>= c.parse)
            (decode_expiry c (value (codes "expires_at")))
            (value (codes "provider"))
            (value (codes "project"))
            (value (codes "source_description"))
  unfolding decode_metadata decode_fields
  decode_metadata-assemble notes =
      let found = λ (key : Text). get-collect_fields key (lines notes) in
      rw
        (
          found (codes "acquired_via"),
          found (codes "tier"),
          found (codes "acquired_at"),
          found (codes "expires_at"),
          found (codes "provider"),
          found (codes "project"),
          found (codes "source_description"),
        )
        refl

  -- A Notes text, whoever wrote it, reads back as metadata exactly if, for each key, the last line
  -- that sets it gives that metadata's field: provenance and tier in their written forms, a time of
  -- acquisition that parses, provider, project and description, neither of the last two blank; the
  -- expiry is that of the last line that sets one, or none if there is no such line, or it sets an
  -- empty text or one that does not parse.
  pub decode_metadata_iff :
      (notes : Text) (m : EntryMetadata c.DateTime)
      → (decode_metadata c notes ≡ some m) ↔ Reads (lines notes) m
  decode_metadata_iff notes m = (
    λ h.
        Parses-Reads (lines notes) m
          (assemble-eq_some _ _ _ _ _ _ _ m (sym (decode_metadata-assemble notes) ∙ h)),
    λ r.
        decode_metadata-assemble notes
        ∙ assemble_of _ _ _ _ _ _ _ m (Reads-Parses (lines notes) m r),
  )
