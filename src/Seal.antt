-- ===== src/Seal.antt =====
-- crates/custodly-core/src/seal.rs: sealing a value to a recipient's public key. The primitives
-- (`hex`, `x25519_dalek`, `hkdf`, `chacha20poly1305`, `rand`) are not in the repository.
pub mod Open
pub mod Aad
pub mod Live
pub mod Refuse
pub mod Fresh
use custodly.Prelude.{
  ℕ, Bool, List, [], ◌∷◌, ◌++◌, Option, none, some, Result, ok, err, and_then, ok_or, Io, returns,
  fails, run_next, if◌then◌else◌, length, is_empty, ◌==◌, ◌≡◌,
}
use custodly.Text.{Text, codes}
use custodly.Text.Utf8.{Bytes, as_bytes}
use custodly.Contract.{SealedSecret, contract_version}

-- A cipher value is made from a key; keys and points are byte strings of 32.
pub record Crypto : Type 1 where
  pub Cipher : Type 0
  pub hex_decode : Text → Option Bytes
  pub hex_encode : Bytes → Text
  -- `PublicKey::from(&StaticSecret)`.
  pub public_key : Bytes → Bytes
  pub diffie_hellman : Bytes → Bytes → Bytes
  -- `Hkdf::<Sha256>::new(Some(salt), shared).expand(info, &mut [0; 32])`.
  pub hkdf_sha256 : (salt shared info : Bytes) → Option Bytes
  pub new_from_slice : Bytes → Option Cipher
  -- `encrypt` and `decrypt` under a nonce and associated data.
  pub encrypt : Cipher → (nonce aad message : Bytes) → Option Bytes
  pub decrypt : Cipher → (nonce aad ciphertext : Bytes) → Option Bytes

-- The messages that `bail!` and `anyhow!` give, one for each place.
pub data SealError : Type 0 where
  empty_value not_hex not_32_bytes not_24_bytes no_seal_key invalid_derived_key sealing_failed :
      SealError

abbrev pub hkdf_info : Text
hkdf_info = codes "ferryman-secret/v1"

abbrev pub ingestion_identity_name : Text
ingestion_identity_name = codes "custodly-ingestion"

abbrev pub aad_text : Text → Text
aad_text project_id =
    contract_version ++ (b'\n' ∷ (ingestion_identity_name ++ (b'\n' ∷ project_id)))

unfoldable pub deposit_aad : Text → Bytes
deposit_aad project_id = as_bytes (aad_text project_id)

module _ (crypto : Crypto) where
  open crypto use {
    Cipher, hex_decode, hex_encode, public_key, diffie_hellman, hkdf_sha256, new_from_slice,
    encrypt,
  }

  -- `try_into::<[u8; 32]>()`.
  unfoldable pub hex_decode_32 : Text → Result SealError Bytes
  hex_decode_32 encoded =
      and_then (ok_or not_hex (hex_decode encoded))
        (λ bytes. if length bytes == 32 then ok bytes else err not_32_bytes)

  -- `cipher_for` from the shared secret on.
  unfoldable pub cipher_from :
      (shared ephemeral_public recipient_public : Bytes) → Result SealError Cipher
  cipher_from shared ephemeral_public recipient_public =
      and_then
        (ok_or no_seal_key
          (hkdf_sha256 (ephemeral_public ++ recipient_public) shared (as_bytes hkdf_info)))
        (λ key. ok_or invalid_derived_key (new_from_slice key))

  unfoldable pub cipher_for :
      (ephemeral ephemeral_public recipient_public : Bytes) → Result SealError Cipher
  unfolding cipher_from
  cipher_for ephemeral ephemeral_public recipient_public =
      cipher_from (diffie_hellman ephemeral recipient_public) ephemeral_public recipient_public

  -- The encryption under a nonce, and the hex forms.
  unfoldable pub seal_with :
      Cipher → (ephemeral_public nonce aad : Bytes) → Text → Result SealError SealedSecret
  seal_with cipher ephemeral_public nonce aad value =
      and_then (ok_or sealing_failed (encrypt cipher nonce aad (as_bytes value))) (λ ciphertext.
        ok (record {
          ephemeral_public_hex = hex_encode ephemeral_public;
          nonce_hex = hex_encode nonce;
          ciphertext_hex = hex_encode ciphertext;
        }))

  module _ {W : Type 0} (fill_bytes : ℕ → W → Bytes × W) where
    -- The nonce is drawn once the cipher is made.
    unfoldable pub seal_nonce :
        Text → (aad ephemeral_public : Bytes) → Cipher → Io W SealError SealedSecret
    seal_nonce value aad ephemeral_public cipher w =
        let (nonce, w') = fill_bytes 24 w in (seal_with cipher ephemeral_public nonce aad value, w')

    unfoldable pub seal_to : Text → Bytes → Bytes → Io W SealError SealedSecret
    seal_to value aad recipient_public w =
        let (seed, w') = fill_bytes 32 w in
        run_next (cipher_for seed (public_key seed) recipient_public, w')
          (seal_nonce value aad (public_key seed))

    unfoldable pub seal_for_ingestion : Text → Bytes → Text → Io W SealError SealedSecret
    seal_for_ingestion recipient_public_hex aad value w =
        if is_empty value
        then fails empty_value w
        else run_next (hex_decode_32 recipient_public_hex, w) (seal_to value aad)
