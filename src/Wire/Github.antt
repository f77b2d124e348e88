-- ===== src/Wire/Github.antt =====
-- GitHub's answer as JSON, and what the minting call makes of it.
use custodly.Prelude.{◌≡◌, refl, none, some, ok, ◌>>=◌, true, []}
use custodly.Text.{Text, codes}
use custodly.Map.{Map, get}
use custodly.Chrono.{Chrono}
use custodly.Net.{Net}
use custodly.Tier.{tier2}
use custodly.Github.{
  AppCredentials, RequestedGrant, MintedToken, InstallationTokenResponse, from_response,
}
use custodly.Github.Token.{from_response-tier}
use custodly.Github.Jwt.{Jwt, claims}
use custodly.Github.Live.{mint_installation_token_succeeds}
use custodly.Github.Mint.{mint_installation_token, access_request}
use custodly.Wire.{Serde}
use custodly.Wire.Read.{parse_token_answer, parse_json, read_time}

module _ {T : Type 0} (s : Serde T) where
  -- An object with a token and an expiry, and without permissions.
  pub record IsBare (v : s.Value) (token : Text) (expires_at : T) : Type 0 where
    pub fields : Map s.Value
    pub fields_are : s.as_object v ≡ some fields
    pub token_is : (get (codes "token") fields >>= s.as_str) ≡ some token
    pub expiry_is : (get (codes "expires_at") fields >>= read_time s) ≡ some expires_at
    pub no_permissions : get (codes "permissions") fields ≡ none

  parse_bare :
      (v : s.Value) (token : Text) (expires_at : T)
      → IsBare v token expires_at
      → parse_token_answer s v
        ≡ some (record { token = token; expires_at = expires_at; permissions = [] })
  unfolding parse_token_answer
  parse_bare v token expires_at bare =
      rw (bare.fields_are, bare.token_is, bare.expiry_is, bare.no_permissions)

  parse_json-bare :
      {E : Type 0} (e : E) (v : s.Value) (body token : Text) (expires_at : T)
      → s.from_str body ≡ some v
      → IsBare v token expires_at
      → parse_json s e (parse_token_answer s) body
        ≡ ok (record { token = token; expires_at = expires_at; permissions = [] })
  parse_json-bare e v body token expires_at h bare = rw (h, parse_bare v token expires_at bare)

module _ {W : Type 0} (net : Net W) (c : Chrono) (j : Jwt) (s : Serde c.DateTime) where
  -- If GitHub's answer names no permissions, the token is minted, whatever was requested, with none
  -- granted, and is tier 2.
  pub mint_without_permissions :
      (e : net.RequestError) (utc_now : W → c.DateTime × W) (app : AppCredentials)
      (grant : RequestedGrant) (key : j.EncodingKey) (jwt body token : Text)
      (expires_at : c.DateTime) (v : s.Value) (response : net.Response) (w w1 w2 : W)
      → j.from_rsa_pem app.private_key_pem ≡ ok key
      → j.encode (claims c app (utc_now w).0) key ≡ ok jwt
      → net.send (access_request net c j grant jwt) (utc_now w).1 ≡ (ok response, w1)
      → net.is_success response ≡ true
      → net.text response w1 ≡ (ok body, w2)
      → s.from_str body ≡ some v
      → IsBare s v token expires_at
      → (minted : MintedToken c.DateTime) × (mint_installation_token net c j
            (parse_json s e (parse_token_answer s))
            utc_now
            app
            grant
            w
          ≡ (ok minted, w2))
        × (minted.token ≡ token)
        × (minted.granted_permissions ≡ [])
        × (minted.tier ≡ tier2)
  unfolding from_response
  mint_without_permissions e utc_now app grant key jwt body token expires_at v response w w1 w2 k
        signed sent success read parsed bare =
      let answer : InstallationTokenResponse c.DateTime = record {
        token = token;
        expires_at = expires_at;
        permissions = [];
      } in
      (
        from_response answer,
        mint_installation_token_succeeds net c j (parse_json s e (parse_token_answer s)) utc_now app
            grant key jwt body response answer w w1 w2 k signed sent success read
            (parse_json-bare s e v body token expires_at parsed bare) tt,
        refl,
        refl,
        (from_response-tier answer).1,
      )
