-- ===== src/Github/Live.antt =====
-- When a token is minted.
use custodly.Prelude.{◌≡◌, All, Result, ok, true}
use custodly.Text.{Text}
use custodly.Chrono.{Chrono}
use custodly.Net.{Net}
use custodly.Github.{AppCredentials, RequestedGrant, InstallationTokenResponse, from_response}
use custodly.Github.Creep.{IsCovered, verify_no_scope_creep_iff}
use custodly.Github.Jwt.{Jwt, claims, mint_jwt}
use custodly.Github.Mint.{
  accept, read_token, read_response, mint_installation_token, access_request,
}

module _ {W : Type 0} (net : Net W) (c : Chrono) (j : Jwt)
    (parse : Text → Result net.RequestError (InstallationTokenResponse c.DateTime)) where
  -- If the key signs the claims, the call is answered with success, and the answer parses as a
  -- token whose permissions the request covers, then that token is minted.
  pub mint_installation_token_succeeds :
      (utc_now : W → c.DateTime × W) (app : AppCredentials) (grant : RequestedGrant)
      (key : j.EncodingKey) (jwt body : Text) (response : net.Response)
      (parsed : InstallationTokenResponse c.DateTime) (w w1 w2 : W)
      → j.from_rsa_pem app.private_key_pem ≡ ok key
      → j.encode (claims c app (utc_now w).0) key ≡ ok jwt
      → net.send (access_request net c j grant jwt) (utc_now w).1 ≡ (ok response, w1)
      → net.is_success response ≡ true
      → net.text response w1 ≡ (ok body, w2)
      → parse body ≡ ok parsed
      → All (IsCovered grant.permissions) parsed.permissions
      → mint_installation_token net c j parse utc_now app grant w ≡ (ok (from_response parsed), w2)
  unfolding mint_installation_token mint_jwt read_response read_token accept
  mint_installation_token_succeeds utc_now app grant key jwt body response parsed w w1 w2 k e s i t
        p a =
      let verified =
        (verify_no_scope_creep_iff {J = j.JwtError} {R = net.RequestError} grant.permissions
            parsed.permissions).1
          a in
      rw (k, e, s, i, t, p, verified)
