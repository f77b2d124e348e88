-- ===== src/Seal/Live.antt =====
-- When sealing succeeds.
use custodly.Prelude.{ℕ, ◌≡◌, ◌<◌, false, some, ok, is_empty, length, ◌++◌}
use custodly.Text.{Text}
use custodly.Text.Utf8.{Bytes, as_bytes}
use custodly.Contract.{SealedSecret}
use custodly.Seal.{
  Crypto, cipher_for, seal_with, seal_nonce, seal_to, seal_for_ingestion, hkdf_info,
}
use custodly.Seal.Open.{IsSound, open_sealed, open-seal_for_ingestion, hex_decode_32-hex_encode}

-- The primitives succeed where they are documented to: a key of 32 bytes is derived and accepted, and
-- a message below a limit is encrypted under a nonce of 24 bytes.
pub record IsTotal (crypto : Crypto) : Type 0 where
  pub limit : ℕ
  pub derived :
      (salt shared info : Bytes)
      → (key : Bytes) × (crypto.hkdf_sha256 salt shared info ≡ some key) × (length key ≡ 32)
  pub accepted :
      (key : Bytes) → length key ≡ 32 → (k : crypto.Cipher) × (crypto.new_from_slice key ≡ some k)
  pub encrypted :
      (k : crypto.Cipher) (nonce aad message : Bytes)
      → length nonce ≡ 24
      → length message < limit
      → (sealed : Bytes) × (crypto.encrypt k nonce aad message ≡ some sealed)

module _ (crypto : Crypto) (laws : IsSound crypto) (total : IsTotal crypto) where
  cipher_for_succeeds :
      (ephemeral ephemeral_public recipient_public : Bytes)
      → (k : crypto.Cipher) × (cipher_for crypto ephemeral ephemeral_public recipient_public ≡ ok k)
  unfolding cipher_for
  cipher_for_succeeds ephemeral ephemeral_public recipient_public =
      let shared = crypto.diffie_hellman ephemeral recipient_public in
      let (key, derived, len) =
        total.derived (ephemeral_public ++ recipient_public) shared (as_bytes hkdf_info) in
      let (k, accepted) = total.accepted key len in (k, rw (derived, accepted))

  module _ {W : Type 0} (fill_bytes : ℕ → W → Bytes × W) where
    -- A value that is not empty and below the limit is sealed to the public key of every secret key,
    -- and what comes out opens under that key and the same associated data to the value's bytes.
    pub seal_for_ingestion_succeeds :
        (random : (n : ℕ) (w : W) → length (fill_bytes n w).0 ≡ n) (secret aad : Bytes)
        (value : Text) (w : W)
        → is_empty value ≡ false
        → length (as_bytes value) < total.limit
        → (sealed : SealedSecret) × (w' : W) × (seal_for_ingestion crypto fill_bytes
              (crypto.hex_encode (crypto.public_key secret))
              aad
              value
              w
            ≡ (ok sealed, w'))
          × (open_sealed crypto secret sealed aad ≡ ok (as_bytes value))
    unfolding seal_for_ingestion seal_to seal_nonce seal_with
    seal_for_ingestion_succeeds random secret aad value w filled small =
        let (seed, w1) = fill_bytes 32 w in
        let public = crypto.public_key seed in
        let (k, keyed) = cipher_for_succeeds seed public (crypto.public_key secret) in
        let (nonce, w2) = fill_bytes 24 w1 in
        let (ciphertext, encrypted) =
          total.encrypted k nonce aad (as_bytes value) (random 24 w1) small in
        let sealed : SealedSecret = record {
          ephemeral_public_hex = crypto.hex_encode public;
          nonce_hex = crypto.hex_encode nonce;
          ciphertext_hex = crypto.hex_encode ciphertext;
        } in
        let run : seal_for_ingestion crypto fill_bytes
              (crypto.hex_encode (crypto.public_key secret)) aad value w
            ≡ (ok sealed, w2) =
          rw (filled, hex_decode_32-hex_encode crypto laws secret, keyed, encrypted) in
        (
          sealed,
          w2,
          run,
          open-seal_for_ingestion crypto laws fill_bytes random secret aad value sealed w w2 run,
        )
