-- ===== src/Github/Jwt.antt =====
-- `mint_jwt` of crates/custodly-github/src/app.rs. `jsonwebtoken` is a parameter.
use custodly.Prelude.{◌*◌, ◌≡◌, Result, and_then, map_err}
use custodly.Prelude.Int.{ℤ, pos, ◌-ℤ◌, int_laws}
use custodly.Text.{Text}
use custodly.Text.Decimal.{decimal, value_onto, value_onto-decimal}
use custodly.Chrono.{Chrono, IsClock}
use custodly.Github.{AppCredentials, GithubError, jwt}

pub record Claims : Type 0 where
  pub iat : ℤ
  pub exp : ℤ
  pub iss : Text

-- `EncodingKey::from_rsa_pem`, and `encode` with an RS256 header.
pub record Jwt : Type 1 where
  pub JwtError : Type 0
  pub EncodingKey : Type 0
  pub from_rsa_pem : Text → Result JwtError EncodingKey
  pub encode : Claims → EncodingKey → Result JwtError Text

module _ (c : Chrono) where
  unfoldable pub claims : AppCredentials → c.DateTime → Claims
  claims app now = record {
    iat = c.timestamp (c.minus now 60);
    exp = c.timestamp (c.plus now (9 * 60));
    iss = decimal app.app_id;
  }

  -- The token is backdated by a minute and lives for ten minutes from there, nine from now, so it
  -- stays within the ten minutes that GitHub allows; its issuer is the app's id in decimal.
  pub claims_window :
      IsClock c
      → (app : AppCredentials) (now : c.DateTime)
      → (c.timestamp now -ℤ (claims app now).iat ≡ pos 60)
        × ((claims app now).exp -ℤ c.timestamp now ≡ pos 540)
        × ((claims app now).exp -ℤ (claims app now).iat ≡ pos 600)
        × (value_onto 0 (claims app now).iss ≡ app.app_id)
  unfolding claims
  claims_window k app now =
      let back = k.timestamp-minus now 60 in
      let forth = k.timestamp-plus now 540 in
      (
        rw back (omega int_laws),
        rw forth (omega int_laws),
        rw (back, forth) (omega int_laws),
        value_onto-decimal app.app_id,
      )

  module _ (j : Jwt) where
    unfoldable pub mint_jwt :
        {R : Type 0} → AppCredentials → c.DateTime → Result (GithubError j.JwtError R) Text
    mint_jwt app now =
        map_err jwt (and_then (j.from_rsa_pem app.private_key_pem) (j.encode (claims app now)))
