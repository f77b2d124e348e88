-- ===== src/Github/Gate.antt =====
-- Only a verified token comes out of the minting call.
use custodly.Prelude.{
  ◌≡◌, refl, ap, Result, ok, run_next-eq_ok, and_then-eq_ok, All, Bool-cases, inl, inr, convert_io,
}
use custodly.Text.{Text}
use custodly.Chrono.{Chrono}
use custodly.Net.{Net}
use custodly.Github.{
  AppCredentials, request, RequestedGrant, MintedToken, InstallationTokenResponse, from_response,
  verify_no_scope_creep, scope_of,
}
use custodly.Github.Creep.{IsCovered, verify_no_scope_creep_iff}
use custodly.Github.Token.{highest_tier, from_response-tier}
use custodly.Github.Jwt.{Jwt, mint_jwt}
use custodly.Github.Mint.{
  accept, read_token, read_response, api_error, mint_installation_token, access_request,
}

-- What a minted token may be handed on with.
pub record IsVerified {T : Type 0} (grant : RequestedGrant) (token : MintedToken T) : Type 0 where
  pub covered : All (IsCovered grant.permissions) token.granted_permissions
  pub scored : token.tier ≡ highest_tier token.granted_permissions
  pub described : token.scope_string ≡ scope_of token.granted_permissions

module _ {W : Type 0} (net : Net W) (c : Chrono) (j : Jwt) where
  accept-IsVerified :
      (grant : RequestedGrant) (parsed : InstallationTokenResponse c.DateTime)
      (token : MintedToken c.DateTime)
      → accept net c j grant parsed ≡ ok token
      → IsVerified grant token
  unfolding accept from_response
  accept-IsVerified grant parsed token h =
      let (u, verified, e) =
        and_then-eq_ok (verify_no_scope_creep grant.permissions parsed.permissions)
          (λ _. ok (from_response parsed)) token h in
      let same : from_response parsed ≡ token = cc in
      rw (← same) (record {
        covered = (verify_no_scope_creep_iff grant.permissions parsed.permissions).0 verified;
        scored = (from_response-tier parsed).1;
        described = refl;
      })

  module _ (parse : Text → Result net.RequestError (InstallationTokenResponse c.DateTime)) where
    read_response-IsVerified :
        (grant : RequestedGrant) (response : net.Response) (token : MintedToken c.DateTime)
        (w w' : W)
        → read_response net c j parse grant response w ≡ (ok token, w')
        → IsVerified grant token
    unfolding read_response api_error
    read_response-IsVerified grant response token w w' h =
        elim (Bool-cases (net.is_success response)) [
          | inl success ↦
              let (parsed, v, _, e) =
                run_next-eq_ok (read_token net c j parse response w)
                  (λ parsed v. (accept net c j grant parsed, v)) token w' (rw success at h) in
              accept-IsVerified grant parsed token (ap (λ p. p.0) e)
          | inr failure ↦ cc (ap (λ p. p.0) (rw failure at h))
        ]

    -- A token is returned only if the request covers every permission that GitHub granted with it;
    -- it is then scored by those permissions.
    pub mint_installation_token-IsVerified :
        (utc_now : W → c.DateTime × W) (app : AppCredentials) (grant : RequestedGrant)
        (token : MintedToken c.DateTime) (w w' : W)
        → mint_installation_token net c j parse utc_now app grant w ≡ (ok token, w')
        → IsVerified grant token
    unfolding mint_installation_token
    mint_installation_token-IsVerified utc_now app grant token w w' h =
        let (jwt, v, _, e) =
          run_next-eq_ok (mint_jwt c j app (utc_now w).0, (utc_now w).1) _ token w' h in
        let (response, u, _, k) =
          run_next-eq_ok (convert_io request (net.send (access_request net c j grant jwt)) v)
            (read_response net c j parse grant) token w' e in
        read_response-IsVerified grant response token u w' k
