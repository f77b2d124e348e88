-- ===== src/Cli/Before.antt =====
-- What a run of `mint-github` leaves alone before the vault's `put`.
use custodly.Prelude.{◌++◌, ◌∙◌, refl, convert_io, Option-cases, inl, inr, is_empty}
use custodly.Text.{Text, codes, trim}
use custodly.Chrono.{Chrono}
use custodly.Net.{Net}
use custodly.Seal.{Crypto, seal_for_ingestion, deposit_aad}
use custodly.Client.{DepositRequest, deposit, fetch_ingestion_key}
use custodly.Github.{AppCredentials, RequestedGrant, MintedToken, request}
use custodly.Github.Jwt.{Jwt, mint_jwt}
use custodly.Github.Mint.{
  mint_installation_token, read_response, read_token, api_error, access_request,
}
use custodly.Vault.Host.{Host}
use custodly.Cli.{MintGithub, ferryman_flags}
use custodly.Cli.Live.{leave}
use custodly.Cli.Mint.{
  Process, Parsers, Error, read_key, deposit_with, deposit_step, needs_ferryman_deposit, client,
  seal, deposit_metadata,
}
use custodly.Cli.Keeps.{
  IsApart, Keeps, run_next-Keeps, if-Keeps, fetch_ingestion_key-Keeps, deposit-Keeps,
  seal_for_ingestion-Keeps,
}

module _ (c : Chrono) (host : Host) (net : Net host.World) (j : Jwt) (crypto : Crypto)
    (process : Process host.World c.DateTime) (parsers : Parsers c.DateTime net.RequestError)
    {S : Type 0} (look : host.World → S) (apart : IsApart net process look) where
  abbrev Failure : Type 0
  Failure = Error c host net j crypto process parsers

  pub read_key-Keeps : Keeps look (read_key c host net j crypto process parsers)
  unfolding read_key
  read_key-Keeps w =
      run_next-Keeps look _ _ (look w) (apart.draining w)
        (λ pem. if-Keeps look (is_empty (trim pem)) _ _ (λ v. refl) (λ v. refl))

  read_token-Keeps :
      (response : net.Response) → Keeps look (read_token net c j parsers.token_response response)
  unfolding read_token
  read_token-Keeps response w =
      run_next-Keeps look _ _ (look w) (apart.answering response w) (λ body v. refl)

  read_response-Keeps :
      (grant : RequestedGrant) (response : net.Response)
      → Keeps look (read_response net c j parsers.token_response grant response)
  unfolding read_response api_error
  read_response-Keeps grant response =
      if-Keeps look (net.is_success response) _ _
        (λ w.
          run_next-Keeps look (read_token net c j parsers.token_response response w) _ (look w)
            (read_token-Keeps response w) (λ parsed v. refl))
        (λ w. apart.answering response w)

  pub mint_installation_token-Keeps :
      (app : AppCredentials) (grant : RequestedGrant)
      → Keeps look
          (mint_installation_token net c j parsers.token_response process.utc_now app grant)
  unfolding mint_installation_token
  mint_installation_token-Keeps app grant w =
      run_next-Keeps look (mint_jwt c j app (process.utc_now w).0, (process.utc_now w).1) _ (look w)
        (apart.timing w)
        (λ jwt v.
          run_next-Keeps look (convert_io request (net.send (access_request net c j grant jwt)) v) _
            (look v) (apart.sending _ v) (λ response. read_response-Keeps grant response))

  deposit_with-Keeps :
      (args : MintGithub) (minted : MintedToken c.DateTime) (flags : Text × Text × Text)
      → Keeps look (deposit_with c host net j crypto process parsers args minted flags)
  unfolding deposit_with
  deposit_with-Keeps args minted (base_url, project, token) w =
      let (at, w1) = process.utc_now w in
      let fetch = fetch_ingestion_key net parsers.key_response base_url project token in
      run_next-Keeps look {E = Failure} {B = Unit {0}} (convert_io client fetch w1) _ (look w)
        (fetch_ingestion_key-Keeps net process look apart parsers.key_response base_url project
            token w1
          ∙ apart.timing w)
        (λ hex w2.
          let sealing =
            seal_for_ingestion crypto process.fill_bytes hex (deposit_aad project) minted.token in
          run_next-Keeps look {E = Failure} {B = Unit {0}} (convert_io seal sealing w2) _ (look w2)
            (seal_for_ingestion-Keeps net process look apart crypto hex (deposit_aad project)
              minted.token w2)
            (λ sealed w3.
              let (id_bytes, w4) = process.fill_bytes 8 w3 in
              let (now, w5) = process.utc_now w4 in
              let body : DepositRequest c.DateTime = record {
                deposit_id =
                    process.format_compact now ++ (codes "-" ++ crypto.hex_encode id_bytes);
                sealed_secret = sealed;
                metadata = deposit_metadata c host net j crypto process parsers args minted at;
              } in
              let put = deposit net parsers.receipt base_url project token body in
              run_next-Keeps look {E = Failure} {B = Unit {0}} (convert_io client put w5) _
                (look w3)
                (deposit-Keeps net process look apart parsers.receipt base_url project token body w5
                  ∙ apart.timing w4
                  ∙ apart.drawing 8 w3)
                (λ receipt w6. apart.printing _ w6)))

  pub leave-Keeps :
      (args : MintGithub) (minted : MintedToken c.DateTime)
      → Keeps look (leave c host net j crypto process parsers args minted)
  unfolding deposit_step
  leave-Keeps args minted =
      if-Keeps look (needs_ferryman_deposit minted.tier args.for_recipient) _ _
        (λ w.
          elim (Option-cases
            (ferryman_flags args.ferryman_base_url args.ferryman_project args.ferryman_token)) [
              | inl missing ↦ rw (missing, deposit_step)
              | inr (flags, given) ↦
                  rw (given, deposit_step) (deposit_with-Keeps args minted flags w)
            ])
        (λ w. refl)
