-- ===== src/Unit/Seal.antt =====
-- The tests of crates/custodly-core/src/seal.rs, for sound primitives that nobody breaks, and a random
-- source that does not repeat itself.
use custodly.Prelude.{ℕ, ◌≡◌, refl, err, [], ok, length, ◌<◌, ◌≢◌, inl, inr, Result-cases}
use custodly.Text.{codes, eq_text, Text}
use custodly.Text.Utf8.{Bytes, as_bytes, char_bytes}
use custodly.Seal.Fresh.{IsFresh, after_draws, seal_twice}
use custodly.Seal.Open.{IsSound, open_sealed}
use custodly.Seal.Refuse.{Forged, IsForeign, open-seal_for_ingestion_forges}
use custodly.Text.Equality.{ne_of_test}
use custodly.Seal.Live.{IsTotal, seal_for_ingestion_succeeds}
use custodly.Contract.{SealedSecret}
use custodly.Seal.{Crypto, SealError, seal_for_ingestion, deposit_aad}

abbrev pub DepositAadMatchesFerrymansFormatByteForByte : Type 0
DepositAadMatchesFerrymansFormatByteForByte =
    deposit_aad (codes "acme") ≡ codes "boundary/v1\ncustodly-ingestion\nacme"

format_passes : DepositAadMatchesFerrymansFormatByteForByte
unfolding deposit_aad as_bytes char_bytes
format_passes = refl

module _ (crypto : Crypto) {W : Type 0} (fill_bytes : ℕ → W → Bytes × W) (w : W) where
  abbrev pub RefusesToSealAnEmptyValue : (recipient_secret : Bytes) → Type 0
  RefusesToSealAnEmptyValue recipient_secret =
      (e : SealError) × ((seal_for_ingestion crypto fill_bytes
          (crypto.hex_encode (crypto.public_key recipient_secret)) (codes "aad") [] w).0
        ≡ err e)

  empty_value_passes : (recipient_secret : Bytes) → RefusesToSealAnEmptyValue recipient_secret
  unfolding seal_for_ingestion
  empty_value_passes recipient_secret = (_, refl)

  -- The opened text is compared by its bytes.
  abbrev pub SealThenOpenRoundTrips : (recipient_secret : Bytes) → Type 0
  SealThenOpenRoundTrips recipient_secret =
      let aad = codes "boundary/v1\ncustodly-ingestion\nacme" in
      (sealed : SealedSecret) × (w' : W) × (seal_for_ingestion crypto fill_bytes
          (crypto.hex_encode (crypto.public_key recipient_secret)) aad (codes "sk-live-abc123") w
        ≡ (ok sealed, w'))
      × (open_sealed crypto recipient_secret sealed aad ≡ ok (as_bytes (codes "sk-live-abc123")))

  round_trip_passes :
      (laws : IsSound crypto) (total : IsTotal crypto)
      (random : (n : ℕ) (x : W) → length (fill_bytes n x).0 ≡ n) (recipient_secret : Bytes)
      → length (as_bytes (codes "sk-live-abc123")) < total.limit
      → SealThenOpenRoundTrips recipient_secret
  round_trip_passes laws total random recipient_secret small =
      seal_for_ingestion_succeeds crypto laws total fill_bytes random recipient_secret
        (codes "boundary/v1\ncustodly-ingestion\nacme") (codes "sk-live-abc123") w refl small

  -- Both calls succeed.
  abbrev pub EachCallUsesAFreshEphemeralKeyAndNonce : (recipient_secret : Bytes) → Type 0
  EachCallUsesAFreshEphemeralKeyAndNonce recipient_secret =
      let seal =
        seal_for_ingestion crypto fill_bytes
          (crypto.hex_encode (crypto.public_key recipient_secret)) (codes "aad")
          (codes "same value") in
      (first second : SealedSecret) (u x : W)
      → seal w ≡ (ok first, u)
      → seal u ≡ (ok second, x)
      → (first.ephemeral_public_hex ≢ second.ephemeral_public_hex)
        × (first.nonce_hex ≢ second.nonce_hex)
        × (first.ciphertext_hex ≢ second.ciphertext_hex)

  each_call_passes :
      (laws : IsSound crypto) (recipient_secret : Bytes)
      → IsFresh crypto fill_bytes
          (crypto.hex_encode (crypto.public_key recipient_secret))
          (codes "aad")
          (as_bytes (codes "same value"))
          w
          (after_draws crypto fill_bytes w)
      → EachCallUsesAFreshEphemeralKeyAndNonce recipient_secret
  each_call_passes laws recipient_secret apart first second u x h k =
      seal_twice crypto laws fill_bytes (crypto.hex_encode (crypto.public_key recipient_secret))
        (codes "aad") (codes "same value") first second w u x h k apart

  -- The values are sealed to `intended` under `aad` before they are opened.
  abbrev OpensForNoOther : (intended other aad aad' : Bytes) (value : Text) → Type 0
  OpensForNoOther intended other aad aad' value =
      (sealed : SealedSecret) (w' : W)
      → seal_for_ingestion crypto fill_bytes (crypto.hex_encode (crypto.public_key intended)) aad
          value w
        ≡ (ok sealed, w')
      → (e : SealError) × (open_sealed crypto other sealed aad' ≡ err e)

  abbrev pub ADifferentAadFailsToOpen : (recipient_secret : Bytes) → Type 0
  ADifferentAadFailsToOpen recipient_secret =
      OpensForNoOther recipient_secret recipient_secret (codes "aad-one") (codes "aad-two")
        (codes "value")

  abbrev pub ADifferentRecipientCannotOpen : (intended someone_else : Bytes) → Type 0
  ADifferentRecipientCannotOpen intended someone_else =
      OpensForNoOther intended someone_else (codes "aad") (codes "aad") (codes "value")

  module _ (laws : IsSound crypto) (random : (n : ℕ) (x : W) → length (fill_bytes n x).0 ≡ n) where
    one-ne-two : codes "aad-one" ≢ codes "aad-two"
    unfolding eq_text
    one-ne-two = ne_of_test (codes "aad-one") (codes "aad-two") refl

    -- Opening fails unless it breaks the cipher or the key derivation.
    opens_for_no_other :
        (intended other aad aad' : Bytes) (value : Text)
        → IsForeign crypto intended aad other aad'
        → ((opened : Bytes) → ¬ Forged crypto intended aad other aad' (as_bytes value) opened)
        → OpensForNoOther intended other aad aad' value
    opens_for_no_other intended other aad aad' value foreign unbroken sealed w' h =
        elim (Result-cases (open_sealed crypto other sealed aad')) [
          | inl (opened, o) ↦ absurd (
              unbroken opened (
                open-seal_for_ingestion_forges crypto laws fill_bytes random intended aad other aad'
                  opened value sealed w w' h foreign o))
          | inr refused ↦ refused
        ]

    different_aad_passes :
        (recipient_secret : Bytes)
        → ((opened : Bytes)
            → ¬ Forged crypto recipient_secret
                (codes "aad-one")
                recipient_secret
                (codes "aad-two")
                (as_bytes (codes "value"))
                opened)
        → ADifferentAadFailsToOpen recipient_secret
    different_aad_passes recipient_secret unbroken =
        opens_for_no_other recipient_secret recipient_secret (codes "aad-one") (codes "aad-two")
          (codes "value") (inr one-ne-two) unbroken

    different_recipient_passes :
        (intended someone_else : Bytes)
        → crypto.public_key intended ≢ crypto.public_key someone_else
        → ((opened : Bytes)
            → ¬ Forged crypto intended
                (codes "aad")
                someone_else
                (codes "aad")
                (as_bytes (codes "value"))
                opened)
        → ADifferentRecipientCannotOpen intended someone_else
    different_recipient_passes intended someone_else apart unbroken =
        opens_for_no_other intended someone_else (codes "aad") (codes "aad") (codes "value")
          (inl apart) unbroken
