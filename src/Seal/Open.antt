-- ===== src/Seal/Open.antt =====
-- Opening what was sealed, with the recipient's secret key: the construction that Ferryman uses, as
-- the tests of crates/custodly-core/src/seal.rs write it down, up to the plaintext's bytes.
use custodly.Prelude.{
  ℕ, ◌≡◌, ap, some, Result, ok, err, and_then, ok_or, is_empty, length, ◌==◌, if◌then◌else◌,
  Bool-cases, inl, inr, run_next-eq_ok, Option-cases,
}
use custodly.Text.{Text}
use custodly.Text.Utf8.{Bytes, as_bytes}
use custodly.Contract.{SealedSecret}
use custodly.Seal.{
  Crypto, SealError, not_hex, not_24_bytes, sealing_failed, hex_decode_32, cipher_from, cipher_for,
  seal_with, seal_to, seal_for_ingestion, seal_nonce,
}

module _ (crypto : Crypto) where
  -- `hex_decode_24` of the tests.
  unfoldable pub hex_decode_24 : Text → Result SealError Bytes
  hex_decode_24 encoded =
      and_then (ok_or not_hex (crypto.hex_decode encoded))
        (λ bytes. if length bytes == 24 then ok bytes else err not_24_bytes)

  -- `open_for_tests`.
  unfoldable pub open_sealed :
      (recipient_secret : Bytes) → SealedSecret → (aad : Bytes) → Result SealError Bytes
  open_sealed recipient_secret sealed aad =
      and_then (hex_decode_32 crypto sealed.ephemeral_public_hex) λ ephemeral_public.
        and_then
          (cipher_from crypto (crypto.diffie_hellman recipient_secret ephemeral_public)
            ephemeral_public (crypto.public_key recipient_secret))
          λ cipher. and_then (hex_decode_24 sealed.nonce_hex) λ nonce.
            and_then (ok_or not_hex (crypto.hex_decode sealed.ciphertext_hex))
              λ ciphertext. ok_or sealing_failed (crypto.decrypt cipher nonce aad ciphertext)

-- What sealing relies on: hex reads back, the exchange gives both sides one secret, public keys have
-- 32 bytes, and decryption undoes encryption under the same key, nonce and associated data.
pub record IsSound (crypto : Crypto) : Type 0 where
  pub decode-encode : (b : Bytes) → crypto.hex_decode (crypto.hex_encode b) ≡ some b
  pub exchange :
      (a b : Bytes)
      → crypto.diffie_hellman a (crypto.public_key b)
        ≡ crypto.diffie_hellman b (crypto.public_key a)
  pub length-public_key : (a : Bytes) → length (crypto.public_key a) ≡ 32
  pub decrypt-encrypt :
      (k : crypto.Cipher) (nonce aad message sealed : Bytes)
      → crypto.encrypt k nonce aad message ≡ some sealed
      → crypto.decrypt k nonce aad sealed ≡ some message

module _ (crypto : Crypto) (laws : IsSound crypto) where
  pub hex_decode_32-hex_encode :
      (a : Bytes)
      → hex_decode_32 crypto (crypto.hex_encode (crypto.public_key a)) ≡ ok (crypto.public_key a)
  unfolding hex_decode_32
  hex_decode_32-hex_encode a =
      rw (laws.decode-encode (crypto.public_key a), laws.length-public_key a)

  pub hex_decode_24-hex_encode :
      (n : Bytes) → length n ≡ 24 → hex_decode_24 crypto (crypto.hex_encode n) ≡ ok n
  unfolding hex_decode_24
  hex_decode_24-hex_encode n h = rw (laws.decode-encode n, h)

  open-seal_with :
      (secret seed nonce aad : Bytes) (value : Text) (k : crypto.Cipher) (sealed : SealedSecret)
      → length nonce ≡ 24
      → cipher_for crypto seed (crypto.public_key seed) (crypto.public_key secret) ≡ ok k
      → seal_with crypto k (crypto.public_key seed) nonce aad value ≡ ok sealed
      → open_sealed crypto secret sealed aad ≡ ok (as_bytes value)
  unfolding seal_with open_sealed cipher_for
  open-seal_with secret seed nonce aad value k sealed len keyed h =
      elim (Option-cases (crypto.encrypt k nonce aad (as_bytes value))) [
        | inl e ↦ cc (rw e at h)
        | inr (ciphertext, e) ↦
            let same : sealed ≡ record {
              ephemeral_public_hex = crypto.hex_encode (crypto.public_key seed);
              nonce_hex = crypto.hex_encode nonce;
              ciphertext_hex = crypto.hex_encode ciphertext;
            } =
              cc (rw e at h) in
            rw (
              same,
              hex_decode_32-hex_encode seed,
              laws.exchange secret seed,
              keyed,
              hex_decode_24-hex_encode nonce len,
              laws.decode-encode ciphertext,
              laws.decrypt-encrypt k nonce aad (as_bytes value) ciphertext e,
            )
      ]

  -- What a sealed value was made from.
  pub record IsSealed (secret aad : Bytes) (value : Text) (sealed : SealedSecret) : Type 0 where
    pub seed : Bytes
    pub nonce : Bytes
    pub cipher : crypto.Cipher
    pub nonce_length : length nonce ≡ 24
    pub keyed :
        cipher_for crypto seed (crypto.public_key seed) (crypto.public_key secret) ≡ ok cipher
    pub made : seal_with crypto cipher (crypto.public_key seed) nonce aad value ≡ ok sealed

  module _ {W : Type 0} (fill_bytes : ℕ → W → Bytes × W) where
    pub seal_for_ingestion-IsSealed :
        (random : (n : ℕ) (w : W) → length (fill_bytes n w).0 ≡ n) (secret aad : Bytes)
        (value : Text) (sealed : SealedSecret) (w w' : W)
        → seal_for_ingestion crypto fill_bytes
            (crypto.hex_encode (crypto.public_key secret))
            aad
            value
            w
          ≡ (ok sealed, w')
        → IsSealed secret aad value sealed
    unfolding seal_for_ingestion seal_to seal_nonce
    seal_for_ingestion-IsSealed random secret aad value sealed w w' h =
        elim (Bool-cases (is_empty value)) [
          | inl empty ↦ cc (ap (λ p. p.0) (rw empty at h))
          | inr filled ↦
              let start = rw (filled, hex_decode_32-hex_encode secret) at h in
              let (seed, w1) = fill_bytes 32 w in
              let (k, v, keyed, e) =
                run_next-eq_ok
                  (cipher_for crypto seed (crypto.public_key seed) (crypto.public_key secret), w1)
                  (seal_nonce crypto fill_bytes value aad (crypto.public_key seed)) sealed w'
                  start in
              record {
                seed = seed;
                nonce = (fill_bytes 24 v).0;
                cipher = k;
                nonce_length = random 24 v;
                keyed = ap (λ p. p.0) keyed;
                made = ap (λ p. p.0) e;
              }
        ]

    -- A deposit that was sealed to the public key of a secret key opens under that key and the same
    -- associated data, and gives the bytes of the sealed value.
    pub open-seal_for_ingestion :
        (random : (n : ℕ) (w : W) → length (fill_bytes n w).0 ≡ n) (secret aad : Bytes)
        (value : Text) (sealed : SealedSecret) (w w' : W)
        → seal_for_ingestion crypto fill_bytes
            (crypto.hex_encode (crypto.public_key secret))
            aad
            value
            w
          ≡ (ok sealed, w')
        → open_sealed crypto secret sealed aad ≡ ok (as_bytes value)
    open-seal_for_ingestion random secret aad value sealed w w' h =
        let s = seal_for_ingestion-IsSealed random secret aad value sealed w w' h in
        open-seal_with secret s.seed s.nonce aad value s.cipher sealed s.nonce_length s.keyed s.made
