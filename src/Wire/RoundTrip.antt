-- ===== src/Wire/RoundTrip.antt =====
-- What was written as JSON reads back.
use custodly.Prelude.{ℕ, ◌≡◌, ◌<◌, refl, List, [], ◌∷◌, Option, none, some, map, arith}
use custodly.Text.{Text, eq_text}
use custodly.Map.{from_list, insert, get, lt_text}
use custodly.Contract.{
  AcquiredVia, track1_api, track2_recipe, DepositMetadata, SealedSecret, DepositReceipt,
  PolicyResponse,
}
use custodly.Wire.{Serde, IsSerde}
use custodly.Wire.Write.{
  via_name, write_time, write_option, write_metadata, write_policy, write_receipt, write_sealed,
}
use custodly.Wire.Read.{
  via_of, read_u8, read_time, read_via, read_option, read_each, read_texts, parse_metadata,
  parse_policy, parse_receipt, parse_sealed,
}

via_of-via_name : (via : AcquiredVia) → via_of (via_name via) ≡ some via
unfolding via_of via_name eq_text
via_of-via_name track1_api = refl
via_of-via_name track2_recipe = refl

module _ {T : Type 0} (s : Serde T) (laws : IsSerde s) where
  pub read_u8-number : (n : ℕ) → n < 256 → read_u8 s (s.number n) ≡ some n
  unfolding read_u8
  read_u8-number n h = rw (laws.as_u64-number n (omega (arith, h))) (ground arith)

  pub read_time-write_time : (t : T) → read_time s (write_time s t) ≡ some t
  unfolding read_time
  read_time-write_time t = rw (laws.as_str-string (s.time_text t)) (laws.text_time-time_text t)

  read_via-string : (via : AcquiredVia) → read_via s (s.string (via_name via)) ≡ some via
  unfolding read_via
  read_via-string via = rw (laws.as_str-string (via_name via)) (via_of-via_name via)

  read_option-write_option :
      (t : Option T) → read_option s (read_time s) (write_option s (write_time s) t) ≡ some t
  read_option-write_option none = rw laws.null_is
  read_option-write_option (some t) =
      rw (laws.string_is_not (s.time_text t), read_time-write_time t)

  read_each-map : (ts : List Text) → read_each s s.as_str (map s.string ts) ≡ some ts
  unfolding read_each
  read_each-map [] = refl
  read_each-map (t ∷ ts) = rw (laws.as_str-string t, read_each-map ts)

  pub read_texts-array : (ts : List Text) → read_texts s (s.array (map s.string ts)) ≡ some ts
  unfolding read_texts
  read_texts-array ts = rw (laws.as_array-array (map s.string ts)) (read_each-map ts)

  pub parse_metadata-write_metadata :
      (m : DepositMetadata T) → m.tier < 256 → parse_metadata s (write_metadata s m) ≡ some m
  unfolding parse_metadata write_metadata from_list insert get lt_text eq_text
  parse_metadata-write_metadata m small = rw (
    laws.as_object-object _,
    laws.as_str-string m.project,
    laws.as_str-string m.provider,
    laws.as_str-string m.scope,
    laws.as_str-string m.label,
    read_u8-number m.tier small,
    read_via-string m.acquired_via,
    read_time-write_time m.acquired_at,
    read_option-write_option m.expires_at,
  )

  pub parse_sealed-write_sealed :
      (secret : SealedSecret) → parse_sealed s (write_sealed s secret) ≡ some secret
  unfolding parse_sealed write_sealed from_list insert get lt_text eq_text
  parse_sealed-write_sealed secret = rw (
    laws.as_object-object _,
    laws.as_str-string secret.ephemeral_public_hex,
    laws.as_str-string secret.nonce_hex,
    laws.as_str-string secret.ciphertext_hex,
  )

  pub parse_receipt-write_receipt :
      (receipt : DepositReceipt T) → parse_receipt s (write_receipt s receipt) ≡ some receipt
  unfolding parse_receipt write_receipt from_list insert get lt_text eq_text
  parse_receipt-write_receipt receipt = rw (
    laws.as_object-object _,
    laws.as_str-string receipt.deposit_id,
    laws.as_str-string receipt.version,
    read_time-write_time receipt.accepted_at,
  )

  pub parse_policy-write_policy :
      (response : PolicyResponse)
      → response.tier < 256
      → parse_policy s (write_policy s response) ≡ some response
  unfolding parse_policy write_policy from_list insert get lt_text eq_text
  parse_policy-write_policy response small = rw (
    laws.as_object-object _,
    read_u8-number response.tier small,
    read_texts-array response.requires,
  )
