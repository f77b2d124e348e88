-- ===== src/Vault/Forms.antt =====
-- The written forms of the fields of a Notes text, and the parsers of them.
use custodly.Prelude.{
  ◌≡◌, refl, sym, [], ◌∷◌, Option, none, some, ◌>>=◌, ◌≢◌, ◌⊎◌, inl, inr, ◌++◌, Bool-cases,
  Option-cases,
}
use custodly.Text.{Text, codes, eq_text, strip_prefix}
use custodly.Chrono.{Chrono}
use custodly.Tier.{Tier, tier0, tier1, tier2}
use custodly.Text.Equality.{eq_text_iff, strip_prefix-eq_some}
use custodly.Vault.Notes.{decode_migrated, decode_source, decode_tier, decode_expiry}
use custodly.Entry.{github_app_installation_token, manual_entry, migrated, AcquisitionSource}

-- The written forms.
abbrev pub IsSourceText : Text → AcquisitionSource → Type 0
IsSourceText t github_app_installation_token = t ≡ codes "github-app-installation-token"
IsSourceText t manual_entry = t ≡ codes "manual-entry"
IsSourceText t (migrated found_at) = t ≡ codes "migrated:" ++ found_at

abbrev pub IsTierText : Text → Tier → Type 0
IsTierText t tier0 = t ≡ codes "0"
IsTierText t tier1 = t ≡ codes "1"
IsTierText t tier2 = t ≡ codes "2"

decode_migrated-eq_some :
    (t : Text) (source : AcquisitionSource)
    → decode_migrated (strip_prefix (codes "migrated:") t) ≡ some source
    → IsSourceText t source
decode_migrated-eq_some t source h = elim (Option-cases (strip_prefix (codes "migrated:") t)) [
  | inl e ↦ cc (rw e at h)
  | inr (found_at, e) ↦
      let is : migrated found_at ≡ source = cc (rw e at h) in
      rw (← is) (strip_prefix-eq_some (codes "migrated:") t found_at e)
]

pub decode_source-eq_some :
    (t : Text) (source : AcquisitionSource) → decode_source t ≡ some source → IsSourceText t source
unfolding decode_source
decode_source-eq_some t source h =
    elim (Bool-cases (eq_text t (codes "github-app-installation-token"))) [
      | inl e ↦
          let is : github_app_installation_token ≡ source = cc (rw e at h) in
          rw (← is) ((eq_text_iff t (codes "github-app-installation-token")).0 e)
      | inr e ↦
          let rest = rw e at h in
          elim (Bool-cases (eq_text t (codes "manual-entry"))) [
            | inl f ↦
                let is : manual_entry ≡ source = cc (rw f at rest) in
                rw (← is) ((eq_text_iff t (codes "manual-entry")).0 f)
            | inr f ↦ decode_migrated-eq_some t source (rw f at rest)
          ]
    ]

pub decode_tier-eq_some : (t : Text) (tier : Tier) → decode_tier t ≡ some tier → IsTierText t tier
unfolding decode_tier
decode_tier-eq_some t tier h = elim (Bool-cases (eq_text t (codes "0"))) [
  | inl e ↦ let is : tier0 ≡ tier = cc (rw e at h) in rw (← is) ((eq_text_iff t (codes "0")).0 e)
  | inr e ↦
      let rest = rw e at h in
      elim (Bool-cases (eq_text t (codes "1"))) [
        | inl f ↦
            let is : tier1 ≡ tier = cc (rw f at rest) in rw (← is) ((eq_text_iff t (codes "1")).0 f)
        | inr f ↦
            let last = rw f at rest in
            elim (Bool-cases (eq_text t (codes "2"))) [
              | inl g ↦
                  let is : tier2 ≡ tier = cc (rw g at last) in
                  rw (← is) ((eq_text_iff t (codes "2")).0 g)
              | inr g ↦ cc (rw g at last)
            ]
      ]
]

pub decode_source-IsSourceText :
    (t : Text) (source : AcquisitionSource) → IsSourceText t source → decode_source t ≡ some source
unfolding decode_source eq_text strip_prefix
decode_source-IsSourceText t github_app_installation_token h = rw h refl
decode_source-IsSourceText t manual_entry h = rw h refl
decode_source-IsSourceText t (migrated found_at) h = rw h refl

pub decode_tier-IsTierText :
    (t : Text) (tier : Tier) → IsTierText t tier → decode_tier t ≡ some tier
unfolding decode_tier eq_text
decode_tier-IsTierText t tier0 h = rw h refl
decode_tier-IsTierText t tier1 h = rw h refl
decode_tier-IsTierText t tier2 h = rw h refl

-- A field's text, and what it says of a part.
abbrev pub Says : {A : Type 0} → Option Text → (Text → A → Type 0) → A → Type 0
Says value means a = (t : Text) × (value ≡ some t) × means t a

pub Says-of :
    {A : Type 0} (value : Option Text) (means : Text → A → Type 0) (read : Text → Option A) (a : A)
    → ((t : Text) → read t ≡ some a → means t a)
    → (value >>= read) ≡ some a
    → Says value means a
Says-of none means read a sound h = cc
Says-of (some t) means read a sound h = (t, refl, sound t h)

pub of-Says :
    {A : Type 0} (value : Option Text) (means : Text → A → Type 0) (read : Text → Option A) (a : A)
    → ((t : Text) → means t a → read t ≡ some a)
    → Says value means a
    → (value >>= read) ≡ some a
of-Says value means read a complete (t, is, h) = rw is (complete t h)

module _ (c : Chrono) where
  -- The expiry that a field's text gives: a time if the text is not empty and parses as it, and none
  -- if there is no text, or it is empty, or it does not parse.
  abbrev pub IsExpiryText : Option Text → Option c.DateTime → Type 0
  IsExpiryText value (some time) =
      (t : Text) × (value ≡ some t) × (t ≢ []) × (c.parse t ≡ some time)
  IsExpiryText none none = Unit
  IsExpiryText (some t) none = (t ≡ []) ⊎ (c.parse t ≡ none)

  pub decode_expiry-IsExpiryText :
      (value : Option Text) → IsExpiryText value (decode_expiry c value)
  decode_expiry-IsExpiryText none = tt
  decode_expiry-IsExpiryText (some []) = inl refl
  decode_expiry-IsExpiryText (some (x ∷ t)) = elim (Option-cases (c.parse (x ∷ t))) [
    | inl e ↦ rw e (inr e)
    | inr (time, e) ↦ rw e (x ∷ t, refl, (λ empty. cc empty), e)
  ]

  pub IsExpiryText-decode_expiry :
      (value : Option Text) (expires_at : Option c.DateTime)
      → IsExpiryText value expires_at
      → expires_at ≡ decode_expiry c value
  IsExpiryText-decode_expiry none none h = refl
  IsExpiryText-decode_expiry none (some time) (t, is, filled, h) = cc is
  IsExpiryText-decode_expiry (some []) none h = refl
  IsExpiryText-decode_expiry (some (x ∷ t)) none (inl empty) = cc empty
  IsExpiryText-decode_expiry (some (x ∷ t)) none (inr failed) = sym failed
  IsExpiryText-decode_expiry (some []) (some time) (t, is, filled, h) = absurd (filled (cc is))
  IsExpiryText-decode_expiry (some (x ∷ t)) (some time) (u, is, filled, h) =
      let same : x ∷ t ≡ u = cc is in rw same (sym h)
