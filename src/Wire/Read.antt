-- ===== src/Wire/Read.antt =====
-- `Deserialize` of the wire types from an object: a field that is missing or of another kind is an
-- error, here `none`, and a field that is not asked for is passed over.
use custodly.Prelude.{
  ℕ, List, [], ◌∷◌, Option, none, some, if◌then◌else◌, ltb, ◌>>=◌, Result, ok_or,
}
use custodly.Text.{Text, codes, eq_text}
use custodly.Map.{Map, get, from_list}
use custodly.Contract.{
  AcquiredVia, track1_api, track2_recipe, DepositMetadata, SealedSecret, DepositReceipt,
  PolicyResponse,
}
use custodly.Client.{Response}
use custodly.Github.{InstallationTokenResponse, Permissions}
use custodly.Cli.Mint.{Parsers}
use custodly.Wire.{Serde}
use custodly.Wire.Write.{via_name}

unfoldable pub via_of : Text → Option AcquiredVia
via_of name =
    if eq_text name (via_name track1_api)
    then some track1_api
    else if eq_text name (via_name track2_recipe)
    then some track2_recipe
    else none

module _ {T : Type 0} (s : Serde T) where
  open s use {Value, is_null, as_str, as_u64, as_array, as_object, from_str, text_time}

  unfoldable pub read_u8 : Value → Option ℕ
  read_u8 v = as_u64 v >>= λ n. if ltb n 256 then some n else none

  unfoldable pub read_time : Value → Option T
  read_time v = as_str v >>= text_time

  unfoldable pub read_via : Value → Option AcquiredVia
  read_via v = as_str v >>= via_of

  abbrev pub read_option {ℓ} : {A : Type ℓ} → (Value → Option A) → Value → Option (Option A)
  read_option read v = if is_null v then some none else (read v >>= λ a. some (some a))

  -- `#[serde(default)]`.
  abbrev pub or_default {ℓ} : {A : Type ℓ} → A → (Value → Option A) → Option Value → Option A
  or_default a read none = some a
  or_default a read (some v) = read v

  unfoldable pub read_each {ℓ} : {A : Type ℓ} → (Value → Option A) → List Value → Option (List A)
  read_each read [] = some []
  read_each read (v ∷ vs) = read v >>= λ a. read_each read vs >>= λ rest. some (a ∷ rest)

  unfoldable pub read_texts : Value → Option (List Text)
  read_texts v = as_array v >>= read_each as_str

  unfoldable pub parse_metadata : Value → Option (DepositMetadata T)
  parse_metadata v = do
    fields ← as_object v
    project ← get (codes "project") fields >>= as_str
    provider ← get (codes "provider") fields >>= as_str
    scope ← get (codes "scope") fields >>= as_str
    tier ← get (codes "tier") fields >>= read_u8
    acquired_via ← get (codes "acquired_via") fields >>= read_via
    acquired_at ← get (codes "acquired_at") fields >>= read_time
    expires_at ← or_default none (read_option read_time) (get (codes "expires_at") fields)
    label ← get (codes "label") fields >>= as_str
    some (record {
      project = project;
      provider = provider;
      scope = scope;
      tier = tier;
      acquired_via = acquired_via;
      acquired_at = acquired_at;
      expires_at = expires_at;
      label = label;
    })

  unfoldable pub parse_sealed : Value → Option SealedSecret
  parse_sealed v = do
    fields ← as_object v
    ephemeral_public_hex ← get (codes "ephemeral_public_hex") fields >>= as_str
    nonce_hex ← get (codes "nonce_hex") fields >>= as_str
    ciphertext_hex ← get (codes "ciphertext_hex") fields >>= as_str
    some (record {
      ephemeral_public_hex = ephemeral_public_hex;
      nonce_hex = nonce_hex;
      ciphertext_hex = ciphertext_hex;
    })

  unfoldable pub parse_receipt : Value → Option (DepositReceipt T)
  parse_receipt v = do
    fields ← as_object v
    deposit_id ← get (codes "deposit_id") fields >>= as_str
    accepted_at ← get (codes "accepted_at") fields >>= read_time
    version ← get (codes "contract_version") fields >>= as_str
    some (record { deposit_id = deposit_id; accepted_at = accepted_at; version = version })

  unfoldable pub parse_policy : Value → Option PolicyResponse
  parse_policy v = do
    fields ← as_object v
    tier ← get (codes "tier") fields >>= read_u8
    requires ← get (codes "requires") fields >>= read_texts
    some (record { tier = tier; requires = requires })

  -- The answer of the ingestion-key route.
  unfoldable pub parse_key_answer : Value → Option Response
  parse_key_answer v = do
    fields ← as_object v
    public_key_hex ← get (codes "public_key_hex") fields >>= as_str
    version ← get (codes "contract_version") fields >>= as_str
    some (record { public_key_hex = public_key_hex; version = version })

  -- `BTreeMap<String, String>`.
  unfoldable pub read_entries : Map Value → Option (List (Text × Text))
  read_entries [] = some []
  read_entries ((k, v) ∷ es) =
      as_str v >>= λ text. read_entries es >>= λ rest. some ((k, text) ∷ rest)

  unfoldable pub parse_permissions : Value → Option Permissions
  parse_permissions v = as_object v >>= read_entries >>= λ es. some (from_list es)

  unfoldable pub parse_token_answer : Value → Option (InstallationTokenResponse T)
  parse_token_answer v = do
    fields ← as_object v
    token ← get (codes "token") fields >>= as_str
    expires_at ← get (codes "expires_at") fields >>= read_time
    permissions ← or_default [] parse_permissions (get (codes "permissions") fields)
    some (record { token = token; expires_at = expires_at; permissions = permissions })

  -- `response.json()`: an answer that does not read is an error of the client's.
  abbrev pub parse_json {ℓ} : {E : Type 0} {A : Type ℓ} → E → (Value → Option A) → Text → Result E A
  parse_json e read body = ok_or e (from_str body >>= read)

  abbrev pub parsers : {RequestError : Type 0} → RequestError → Parsers T RequestError
  parsers e = record {
    token_response = parse_json e parse_token_answer;
    key_response = parse_json e parse_key_answer;
    receipt = parse_json e parse_receipt;
  }
