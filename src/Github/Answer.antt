-- ===== src/Github/Answer.antt =====
-- Where a minted token comes from: GitHub's answer, as it was parsed.
use custodly.Prelude.{
  ◌≡◌, ap, Result, ok, run_next-eq_ok, and_then-eq_ok, Bool-cases, inl, inr, convert_io, map_err,
  map_err-eq_ok,
}
use custodly.Text.{Text}
use custodly.Chrono.{Chrono}
use custodly.Net.{Net}
use custodly.Github.{
  AppCredentials, GithubError, request, RequestedGrant, MintedToken, InstallationTokenResponse,
  from_response, verify_no_scope_creep,
}
use custodly.Github.Jwt.{Jwt, mint_jwt}
use custodly.Github.Mint.{
  accept, read_token, read_response, api_error, mint_installation_token, access_request,
}

module _ {W : Type 0} (net : Net W) (c : Chrono) (j : Jwt)
    (parse : Text → Result net.RequestError (InstallationTokenResponse c.DateTime)) where
  -- A body that was read, and what it parses as.
  pub record Answered (minted : MintedToken c.DateTime) : Type 0 where
    pub body : Text
    pub parsed : InstallationTokenResponse c.DateTime
    pub reads : parse body ≡ ok parsed
    pub is_token : from_response parsed ≡ minted

  accept-from_response :
      (grant : RequestedGrant) (parsed : InstallationTokenResponse c.DateTime)
      (minted : MintedToken c.DateTime)
      → accept net c j grant parsed ≡ ok minted
      → from_response parsed ≡ minted
  unfolding accept
  accept-from_response grant parsed minted h =
      let (u, verified, e) =
        and_then-eq_ok (verify_no_scope_creep grant.permissions parsed.permissions)
          (λ _. ok (from_response parsed)) minted h in
      cc

  read_response-Answered :
      (grant : RequestedGrant) (response : net.Response) (minted : MintedToken c.DateTime)
      (w w' : W)
      → read_response net c j parse grant response w ≡ (ok minted, w')
      → Answered minted
  unfolding read_response read_token api_error
  read_response-Answered grant response minted w w' h =
      elim (Bool-cases (net.is_success response)) [
        | inl success ↦
            let (parsed, v, read, e) =
              run_next-eq_ok (read_token net c j parse response w)
                (λ parsed v. (accept net c j grant parsed, v)) minted w' (rw success at h) in
            let (body, u, _, k) =
              run_next-eq_ok (convert_io request (net.text response) w)
                (λ body v. (map_err request (parse body), v)) parsed v read in
            record {
              body = body;
              parsed = parsed;
              reads =
                  map_err-eq_ok {F = GithubError j.JwtError net.RequestError} request (parse body)
                    parsed (ap (λ p. p.0) k);
              is_token = accept-from_response grant parsed minted (ap (λ p. p.0) e);
            }
        | inr failure ↦ cc (ap (λ p. p.0) (rw failure at h))
      ]

  pub mint_installation_token-Answered :
      (utc_now : W → c.DateTime × W) (app : AppCredentials) (grant : RequestedGrant)
      (minted : MintedToken c.DateTime) (w w' : W)
      → mint_installation_token net c j parse utc_now app grant w ≡ (ok minted, w')
      → Answered minted
  unfolding mint_installation_token
  mint_installation_token-Answered utc_now app grant minted w w' h =
      let (jwt, v, _, e) =
        run_next-eq_ok (mint_jwt c j app (utc_now w).0, (utc_now w).1) _ minted w' h in
      let (response, u, _, k) =
        run_next-eq_ok (convert_io request (net.send (access_request net c j grant jwt)) v)
          (read_response net c j parse grant) minted w' e in
      read_response-Answered grant response minted u w' k
