-- ===== src/Seal/Fresh.antt =====
-- What a sealed value takes from the random source.
use custodly.Prelude.{
  ℕ, ◌≡◌, ◌≢◌, sym, ap, inl, inr, some, ok, err, is_empty, Bool-cases, Option-cases, run_next,
  Result, Io, subst, refl, returns_eq,
}
use custodly.Text.{Text}
use custodly.Text.Utf8.{Bytes, as_bytes}
use custodly.Contract.{SealedSecret}
use custodly.Seal.{
  Crypto, SealError, cipher_for, hex_decode_32, seal_with, seal_nonce, seal_to, seal_for_ingestion,
}
use custodly.Seal.Open.{IsSound}

pure_first :
    {W E A B : Type 0} (r : Result E A) (w : W) (f : A → Io W E B) (b : B) (w' : W)
    → run_next (r, w) f ≡ (ok b, w')
    → (a : A) × (r ≡ ok a) × (f a w ≡ (ok b, w'))
pure_first (ok a) w f b w' h = (a, refl, h)
pure_first (err e) w f b w' h = cc (ap (λ p. p.0) h)

module _ (crypto : Crypto) {W : Type 0} (fill_bytes : ℕ → W → Bytes × W) where
  -- The seed of the ephemeral key is drawn first, and the nonce behind it.
  abbrev pub seed_at : W → Bytes
  seed_at w = (fill_bytes 32 w).0

  abbrev pub nonce_at : W → Bytes
  nonce_at w = (fill_bytes 24 (fill_bytes 32 w).1).0

  abbrev pub after_draws : W → W
  after_draws w = (fill_bytes 24 (fill_bytes 32 w).1).1

  -- The ciphertext of a message for a recipient, with what the source gives at a world.
  pub record Encrypts (hex : Text) (aad message : Bytes) (w : W) (ciphertext : Bytes) : Type 0 where
    pub recipient_public : Bytes
    pub cipher : crypto.Cipher
    pub decoded : hex_decode_32 crypto hex ≡ ok recipient_public
    pub keyed :
        cipher_for crypto (seed_at w) (crypto.public_key (seed_at w)) recipient_public ≡ ok cipher
    pub encrypted : crypto.encrypt cipher (nonce_at w) aad message ≡ some ciphertext

  -- A value that was sealed with what the source gave.
  pub record IsDrawn (hex : Text) (aad : Bytes) (value : Text) (sealed : SealedSecret) (w w' : W)
      : Type 0 where
    pub ciphertext : Bytes
    pub encrypts : Encrypts hex aad (as_bytes value) w ciphertext
    pub sealed_is : sealed ≡ record {
      ephemeral_public_hex = crypto.hex_encode (crypto.public_key (seed_at w));
      nonce_hex = crypto.hex_encode (nonce_at w);
      ciphertext_hex = crypto.hex_encode ciphertext;
    }
    pub after : w' ≡ after_draws w

  seal_nonce-IsDrawn :
      (hex : Text) (aad : Bytes) (value : Text) (public : Bytes) (k : crypto.Cipher)
      (sealed : SealedSecret) (w w' : W)
      → hex_decode_32 crypto hex ≡ ok public
      → cipher_for crypto (seed_at w) (crypto.public_key (seed_at w)) public ≡ ok k
      → seal_nonce crypto fill_bytes value aad (crypto.public_key (seed_at w)) k (fill_bytes 32 w).1
        ≡ (ok sealed, w')
      → IsDrawn hex aad value sealed w w'
  unfolding seal_nonce seal_with
  seal_nonce-IsDrawn hex aad value public k sealed w w' decoded keyed h =
      elim (Option-cases (crypto.encrypt k (nonce_at w) aad (as_bytes value))) [
        | inl failed ↦ cc (ap (λ p. p.0) (rw failed at h))
        | inr (ciphertext, made) ↦
            let (is, at) = returns_eq {E = SealError} (rw made at h) in
            record {
              ciphertext = ciphertext;
              encrypts = record {
                recipient_public = public;
                cipher = k;
                decoded = decoded;
                keyed = keyed;
                encrypted = made;
              };
              sealed_is = sym is;
              after = sym at;
            }
      ]

  pub seal_for_ingestion-IsDrawn :
      (hex : Text) (aad : Bytes) (value : Text) (sealed : SealedSecret) (w w' : W)
      → seal_for_ingestion crypto fill_bytes hex aad value w ≡ (ok sealed, w')
      → IsDrawn hex aad value sealed w w'
  unfolding seal_for_ingestion seal_to
  seal_for_ingestion-IsDrawn hex aad value sealed w w' h = elim (Bool-cases (is_empty value)) [
    | inl empty ↦ cc (ap (λ p. p.0) (rw empty at h))
    | inr filled ↦
        let (public, decoded, sealing) =
          pure_first (hex_decode_32 crypto hex) w (seal_to crypto fill_bytes value aad) sealed w'
            (rw filled at h) in
        let key = crypto.public_key (seed_at w) in
        let (k, keyed, made) =
          pure_first (cipher_for crypto (seed_at w) key public) (fill_bytes 32 w).1
            (seal_nonce crypto fill_bytes value aad key) sealed w' sealing in
        seal_nonce-IsDrawn hex aad value public k sealed w w' decoded keyed made
  ]

-- The draws at two worlds, and what they encrypt a message to, differ: no draw repeats another.
pub record IsFresh (crypto : Crypto) {W : Type 0} (fill_bytes : ℕ → W → Bytes × W) (hex : Text)
    (aad message : Bytes) (w u : W) : Type 0 where
  pub other_key :
      crypto.public_key (seed_at crypto fill_bytes w)
      ≢ crypto.public_key (seed_at crypto fill_bytes u)
  pub other_nonce : nonce_at crypto fill_bytes w ≢ nonce_at crypto fill_bytes u
  pub other_ciphertext :
      (sealed : Bytes)
      → Encrypts crypto fill_bytes hex aad message w sealed
      → ¬ Encrypts crypto fill_bytes hex aad message u sealed

module _ (crypto : Crypto) (sound : IsSound crypto) {W : Type 0}
    (fill_bytes : ℕ → W → Bytes × W) where
  hex_encode-injective : (a b : Bytes) → crypto.hex_encode a ≡ crypto.hex_encode b → a ≡ b
  hex_encode-injective a b h = cc (sound.decode-encode a, sound.decode-encode b, h)

  -- Two values that were sealed one after the other share no part, if their draws differ.
  pub seal_twice :
      (hex : Text) (aad : Bytes) (value : Text) (first second : SealedSecret) (w u x : W)
      → seal_for_ingestion crypto fill_bytes hex aad value w ≡ (ok first, u)
      → seal_for_ingestion crypto fill_bytes hex aad value u ≡ (ok second, x)
      → IsFresh crypto fill_bytes hex aad (as_bytes value) w (after_draws crypto fill_bytes w)
      → (first.ephemeral_public_hex ≢ second.ephemeral_public_hex)
        × (first.nonce_hex ≢ second.nonce_hex)
        × (first.ciphertext_hex ≢ second.ciphertext_hex)
  seal_twice hex aad value first second w u x h k apart =
      let a = seal_for_ingestion-IsDrawn crypto fill_bytes hex aad value first w u h in
      let b = seal_for_ingestion-IsDrawn crypto fill_bytes hex aad value second u x k in
      let fresh =
        subst (IsFresh crypto fill_bytes hex aad (as_bytes value) w) (sym a.after) apart in
      rw (a.sealed_is, b.sealed_is)
        (
          (λ same. fresh.other_key (hex_encode-injective _ _ same)),
          (λ same. fresh.other_nonce (hex_encode-injective _ _ same)),
          (λ same. fresh.other_ciphertext a.ciphertext a.encrypts (
              subst (Encrypts crypto fill_bytes hex aad (as_bytes value) u)
                (sym (hex_encode-injective _ _ same)) b.encrypts)),
        )
