-- ===== src/Seal/Refuse.antt =====
-- What it takes to open a sealed value with another key, or under other associated data.
use custodly.Prelude.{
  ◌≡◌, ◌≢◌, ◌⊎◌, inl, inr, none, some, Result, ok, length, ◌++◌, Option-cases, append_cancel,
  and_then-eq_ok, ok_or, Option, ℕ, and_then,
}
use custodly.Text.{Text}
use custodly.Text.Utf8.{Bytes, as_bytes}
use custodly.Contract.{SealedSecret}
use custodly.Seal.{
  Crypto, sealing_failed, not_hex, hkdf_info, cipher_from, cipher_for, seal_with,
  seal_for_ingestion,
}
use custodly.Seal.Open.{
  hex_decode_24, IsSound, open_sealed, hex_decode_32-hex_encode, hex_decode_24-hex_encode,
  seal_for_ingestion-IsSealed,
}

ok_or-eq_ok :
    {E A : Type 0} (e : E) (o : Option A) (a : A)
    → ◌≡◌ {A = Result E A} (ok_or e o) (ok a)
    → o ≡ some a
ok_or-eq_ok e none a h = cc
ok_or-eq_ok e (some b) a h = cc

module _ (crypto : Crypto) where
  -- The cipher comes from the salt and some shared secret.
  pub record IsDerived (salt : Bytes) (cipher : crypto.Cipher) : Type 0 where
    pub shared : Bytes
    pub key : Bytes
    pub expanded : crypto.hkdf_sha256 salt shared (as_bytes hkdf_info) ≡ some key
    pub keyed : crypto.new_from_slice key ≡ some cipher

  -- A break of the cipher or of the key derivation: a message that was encrypted under a cipher from
  -- one salt, with some associated data, decrypts under a cipher from another salt, or with other
  -- associated data. The salts end in the public keys of the two secret keys.
  pub record Forged (secret aad other aad' message opened : Bytes) : Type 0 where
    pub ephemeral : Bytes
    pub nonce : Bytes
    pub ciphertext : Bytes
    pub cipher : crypto.Cipher
    pub cipher' : crypto.Cipher
    pub derived : IsDerived (ephemeral ++ crypto.public_key secret) cipher
    pub derived' : IsDerived (ephemeral ++ crypto.public_key other) cipher'
    pub encrypted : crypto.encrypt cipher nonce aad message ≡ some ciphertext
    pub decrypted : crypto.decrypt cipher' nonce aad' ciphertext ≡ some opened
    pub apart :
        (ephemeral ++ crypto.public_key secret ≢ ephemeral ++ crypto.public_key other)
        ⊎ (aad ≢ aad')

  -- Another recipient, or other associated data.
  abbrev pub IsForeign : (secret aad other aad' : Bytes) → Type 0
  IsForeign secret aad other aad' =
      (crypto.public_key secret ≢ crypto.public_key other) ⊎ (aad ≢ aad')

  cipher_from-IsDerived :
      (shared ephemeral recipient : Bytes) (k : crypto.Cipher)
      → cipher_from crypto shared ephemeral recipient ≡ ok k
      → IsDerived (ephemeral ++ recipient) k
  unfolding cipher_from
  cipher_from-IsDerived shared ephemeral recipient k h =
      let (key, derived, made) = and_then-eq_ok _ _ k h in
      record {
        shared = shared;
        key = key;
        expanded = ok_or-eq_ok _ _ key derived;
        keyed = ok_or-eq_ok _ _ k made;
      }

  cipher_for-IsDerived :
      (seed ephemeral recipient : Bytes) (k : crypto.Cipher)
      → cipher_for crypto seed ephemeral recipient ≡ ok k
      → IsDerived (ephemeral ++ recipient) k
  unfolding cipher_for
  cipher_for-IsDerived seed ephemeral recipient k h =
      cipher_from-IsDerived (crypto.diffie_hellman seed recipient) ephemeral recipient k h

  module _ (sound : IsSound crypto) where
    open-seal_with_forges :
        (secret seed nonce aad other aad' opened : Bytes) (value : Text) (k : crypto.Cipher)
        (sealed : SealedSecret)
        → length nonce ≡ 24
        → IsForeign secret aad other aad'
        → cipher_for crypto seed (crypto.public_key seed) (crypto.public_key secret) ≡ ok k
        → seal_with crypto k (crypto.public_key seed) nonce aad value ≡ ok sealed
        → open_sealed crypto other sealed aad' ≡ ok opened
        → Forged secret aad other aad' (as_bytes value) opened
    unfolding seal_with open_sealed
    open-seal_with_forges secret seed nonce aad other aad' opened value k sealed len foreign keyed h
          o =
        elim (Option-cases (crypto.encrypt k nonce aad (as_bytes value))) [
          | inl e ↦ cc (rw e at h)
          | inr (ciphertext, e) ↦
              let same : sealed ≡ record {
                ephemeral_public_hex = crypto.hex_encode (crypto.public_key seed);
                nonce_hex = crypto.hex_encode nonce;
                ciphertext_hex = crypto.hex_encode ciphertext;
              } =
                cc (rw e at h) in
              let ephemeral = crypto.public_key seed in
              let made =
                cipher_from crypto (crypto.diffie_hellman other ephemeral) ephemeral
                  (crypto.public_key other) in
              let opening = λ (k' : crypto.Cipher).
                and_then (hex_decode_24 crypto (crypto.hex_encode nonce)) λ n.
                  and_then (ok_or not_hex (crypto.hex_decode (crypto.hex_encode ciphertext)))
                    λ text. ok_or sealing_failed (crypto.decrypt k' n aad' text) in
              let (k', keyed', rest) =
                and_then-eq_ok made opening opened
                  (rw (same, hex_decode_32-hex_encode crypto sound seed) at o) in
              let decrypting =
                rw (hex_decode_24-hex_encode crypto sound nonce len, sound.decode-encode ciphertext)
                  at rest in
              record {
                ephemeral = crypto.public_key seed;
                nonce = nonce;
                ciphertext = ciphertext;
                cipher = k;
                cipher' = k';
                derived = cipher_for-IsDerived seed (crypto.public_key seed) _ k keyed;
                derived' = cipher_from-IsDerived _ (crypto.public_key seed) _ k' keyed';
                encrypted = e;
                decrypted = ok_or-eq_ok _ _ opened decrypting;
                apart = elim foreign [
                  | inl keys ↦
                      inl (λ salts. keys (append_cancel (crypto.public_key seed) _ _ salts))
                  | inr aads ↦ inr aads
                ];
              }
        ]

    pub open-seal_for_ingestion_forges :
        {W : Type 0} (fill_bytes : ℕ → W → Bytes × W)
        (random : (n : ℕ) (w : W) → length (fill_bytes n w).0 ≡ n)
        (secret aad other aad' opened : Bytes) (value : Text) (sealed : SealedSecret) (w w' : W)
        → seal_for_ingestion crypto fill_bytes
            (crypto.hex_encode (crypto.public_key secret))
            aad
            value
            w
          ≡ (ok sealed, w')
        → IsForeign secret aad other aad'
        → open_sealed crypto other sealed aad' ≡ ok opened
        → Forged secret aad other aad' (as_bytes value) opened
    open-seal_for_ingestion_forges fill_bytes random secret aad other aad' opened value sealed w w'
          h foreign o =
        let s =
          seal_for_ingestion-IsSealed crypto sound fill_bytes random secret aad value sealed w w'
            h in
        open-seal_with_forges secret s.seed s.nonce aad other aad' opened value s.cipher sealed
          s.nonce_length foreign s.keyed s.made o
