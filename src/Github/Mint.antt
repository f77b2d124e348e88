-- ===== src/Github/Mint.antt =====
-- `mint_installation_token` of crates/custodly-github/src/app.rs: the network call between the JWT
-- and the scope-creep check.
use custodly.Prelude.{
  ℕ, List, [], ◌∷◌, ◌++◌, Option, some, Result, ok, err, and_then, map_err, Io, convert_io,
  run_next, ◌>>>◌, if◌then◌else◌,
}
use custodly.Text.{Text, codes}
use custodly.Text.Decimal.{decimal}
use custodly.Chrono.{Chrono}
use custodly.Net.{Net, Request, post}
use custodly.Github.{
  AppCredentials, GithubError, request, api, RequestedGrant, MintedToken, InstallationTokenResponse,
  from_response, verify_no_scope_creep, Permissions,
}
use custodly.Github.Jwt.{Jwt, mint_jwt}

-- `AccessTokenRequest`.
pub record AccessTokenRequest : Type 0 where
  pub repository_ids : Option (List ℕ)
  pub permissions : Permissions

abbrev pub access_tokens_url : ℕ → Text
access_tokens_url installation_id =
    codes "https://api.github.com/app/installations/"
    ++ (decimal installation_id ++ codes "/access_tokens")

abbrev pub github_headers : List (Text × Text)
github_headers =
    (codes "Accept", codes "application/vnd.github+json")
    ∷ (codes "X-GitHub-Api-Version", codes "2022-11-28")
    ∷ (codes "User-Agent", codes "custodly")
    ∷ []

-- `unwrap_or_default()` on a text.
abbrev pub text_or_empty {ℓ} : {E : Type ℓ} → Result E Text → Text
text_or_empty (ok t) = t
text_or_empty (err e) = []

module _ {W : Type 0} (net : Net W) (c : Chrono) (j : Jwt) where
  open net use {RequestError, Response}

  abbrev pub Error : Type 0
  Error = GithubError j.JwtError RequestError

  abbrev pub access_request : RequestedGrant → Text → Request AccessTokenRequest
  access_request grant token = record {
    method = post;
    url = access_tokens_url grant.installation_id;
    bearer = token;
    headers = github_headers;
    body = some (record { repository_ids = grant.repository_ids; permissions = grant.permissions });
  }

  -- The check, and the token only behind it.
  unfoldable pub accept :
      RequestedGrant → InstallationTokenResponse c.DateTime → Result Error (MintedToken c.DateTime)
  accept grant parsed =
      and_then (verify_no_scope_creep grant.permissions parsed.permissions)
        (λ _. ok (from_response parsed))

  module _ (parse : Text → Result RequestError (InstallationTokenResponse c.DateTime)) where
    -- `response.json()`: the body's text, parsed by the derived `Deserialize`.
    unfoldable pub read_token : Response → Io W Error (InstallationTokenResponse c.DateTime)
    read_token response =
        convert_io request (net.text response) >>> λ body w. (map_err request (parse body), w)

    unfoldable pub api_error : Response → Io W Error (MintedToken c.DateTime)
    api_error response w =
        let (body, w') = net.text response w in
        (err (api (net.status response) (text_or_empty body)), w')

    unfoldable pub read_response : RequestedGrant → Response → Io W Error (MintedToken c.DateTime)
    read_response grant response =
        if net.is_success response
        then (read_token response >>> λ parsed w. (accept grant parsed, w))
        else api_error response

    -- `Utc::now()` is the last parameter.
    unfoldable pub mint_installation_token :
        (W → c.DateTime × W) → AppCredentials → RequestedGrant → Io W Error (MintedToken c.DateTime)
    mint_installation_token utc_now app grant w =
        let (now, w1) = utc_now w in
        run_next (mint_jwt c j app now, w1)
          λ token.
            convert_io request (net.send (access_request grant token)) >>> read_response grant
