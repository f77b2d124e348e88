-- ===== src/Unit/Jwt.antt =====
-- The tests of crates/custodly-github/src/app.rs on the App's token, for every pair of keys of which
-- the one verifies what the other signs.
use custodly.Prelude.{ℕ, ◌≡◌, ◌<◌, ◌*◌, ◌+◌, refl, ap, Result, ok, arith}
use custodly.Prelude.Int.{pos, ◌-ℤ◌, ◌<ℤ◌, pos_part, neg_part, -ℤ_parts, ℤ}
use custodly.Text.{Text, codes}
use custodly.Text.Decimal.{decimal, digits_onto}
use custodly.Chrono.{Chrono, IsClock}
use custodly.Github.{AppCredentials}
use custodly.Github.Jwt.{Jwt, Claims, claims, claims_window, mint_jwt}

-- `DecodingKey::from_rsa_pem` and `decode`.
pub record Decoder (j : Jwt) : Type 1 where
  pub DecodingKey : Type 0
  pub from_rsa_pem : Text → Result j.JwtError DecodingKey
  pub decode : Text → DecodingKey → Result j.JwtError Claims

-- The two keys parse, and the public one verifies every signature of the private one.
pub record IsKeyPair (j : Jwt) (d : Decoder j) (private_pem public_pem : Text) : Type 0 where
  pub signing : j.EncodingKey
  pub verifying : d.DecodingKey
  pub signing_parses : j.from_rsa_pem private_pem ≡ ok signing
  pub verifying_parses : d.from_rsa_pem public_pem ≡ ok verifying
  pub signs : (c : Claims) → (jwt : Text) × (j.encode c signing ≡ ok jwt)
  pub verifies :
      (c : Claims) (jwt : Text) → j.encode c signing ≡ ok jwt → d.decode jwt verifying ≡ ok c

later : (a b : ℤ) → b -ℤ a ≡ pos 600 → a <ℤ b
later a b h = omega (arith, -ℤ_parts b a, ap pos_part h, ap neg_part h)

module _ (c : Chrono) (j : Jwt) (d : Decoder j) (R : Type 0) (private_pem public_pem : Text)
    (now : c.DateTime) where
  abbrev pub test_app : AppCredentials
  test_app = record { app_id = 123456; private_key_pem = private_pem }

  -- The claims that the test decodes.
  pub record Decoded : Type 0 where
    pub jwt : Text
    pub key : d.DecodingKey
    pub decoded : Claims
    pub minted : mint_jwt c j {R = R} test_app now ≡ ok jwt
    pub parsed : d.from_rsa_pem public_pem ≡ ok key
    pub verified : d.decode jwt key ≡ ok decoded

  abbrev pub JwtSignsAndVerifiesWithTheMatchingPublicKey : Type 0
  JwtSignsAndVerifiesWithTheMatchingPublicKey =
      (t : Decoded) × (t.decoded.iss ≡ codes "123456")
      × (t.decoded.iat <ℤ t.decoded.exp)
      × (t.decoded.exp -ℤ t.decoded.iat ≡ pos (9 * 60 + 60))

  abbrev pub JwtExpStaysUnderGithubsTenMinuteLimit : Type 0
  JwtExpStaysUnderGithubsTenMinuteLimit =
      (t : Decoded) × (n : ℕ) × (t.decoded.exp -ℤ c.timestamp now ≡ pos n) × (n < 600)

  decoded_claims :
      IsKeyPair j d private_pem public_pem → (t : Decoded) × (t.decoded ≡ claims c test_app now)
  unfolding mint_jwt
  decoded_claims k =
      let (jwt, signed) = k.signs (claims c test_app now) in
      (
        record {
          jwt = jwt;
          key = k.verifying;
          decoded = claims c test_app now;
          minted = rw (k.signing_parses, signed);
          parsed = k.verifying_parses;
          verified = k.verifies (claims c test_app now) jwt signed;
        },
        refl,
      )

  jwts_pass :
      IsClock c
      → IsKeyPair j d private_pem public_pem
      → JwtSignsAndVerifiesWithTheMatchingPublicKey × JwtExpStaysUnderGithubsTenMinuteLimit
  unfolding claims decimal digits_onto decoded_claims
  jwts_pass clock k =
      let (t, is) = decoded_claims k in
      let (back, forth, life, issuer) = claims_window c clock test_app now in
      (
        (t, refl, later (claims c test_app now).iat (claims c test_app now).exp life, life),
        (t, 540, forth, omega arith),
      )
