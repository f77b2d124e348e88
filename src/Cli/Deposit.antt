-- ===== src/Cli/Deposit.antt =====
-- What a successful deposit has sent to Ferryman.
use custodly.Prelude.{
  ℕ, ◌≡◌, refl, ap, some, [], ok, convert_io, convert_io-eq_ok, run_next-eq_ok, length, ◌++◌,
}
use custodly.Text.{Text, codes}
use custodly.Text.Utf8.{Bytes, as_bytes}
use custodly.Chrono.{Chrono}
use custodly.Net.{Net, Request, post}
use custodly.Contract.{DepositReceipt}
use custodly.Seal.{Crypto, seal_for_ingestion, deposit_aad}
use custodly.Seal.Open.{IsSound, open_sealed, open-seal_for_ingestion}
use custodly.Client.{
  DepositRequest, project_url, requesting, fetch_ingestion_key, deposit, read_receipt,
}
use custodly.Github.{MintedToken}
use custodly.Github.Jwt.{Jwt}
use custodly.Vault.Host.{Host}
use custodly.Cli.{MintGithub}
use custodly.Cli.Mint.{Process, Parsers, Error, client, seal, deposit_with, deposit_metadata}
use custodly.Client

module _ (c : Chrono) (host : Host) (net : Net host.World) (j : Jwt) (crypto : Crypto)
    (process : Process host.World c.DateTime) (parsers : Parsers c.DateTime net.RequestError) where
  abbrev Failure : Type 0
  Failure = Error c host net j crypto process parsers

  abbrev pub deposit_call :
      Text → Text → Text → DepositRequest c.DateTime → Request (DepositRequest c.DateTime)
  deposit_call base_url project token body = record {
    method = post;
    url = project_url base_url project (codes "deposit");
    bearer = token;
    headers = [];
    body = some body;
  }

  -- The deposit request that was answered: its route and its token, the metadata that describes the
  -- minted token, and a secret that opens to it under the recipient's key.
  pub record Sent (args : MintGithub) (minted : MintedToken c.DateTime)
      (base_url project token : Text) (recipient_secret : Bytes) : Type 0 where
    pub body : DepositRequest c.DateTime
    pub acquired_at : c.DateTime
    pub response : net.Response
    pub before : host.World
    pub after : host.World
    pub sent : net.send (deposit_call base_url project token body) before ≡ (ok response, after)
    pub described :
        body.metadata ≡ deposit_metadata c host net j crypto process parsers args minted acquired_at
    pub opens :
        open_sealed crypto recipient_secret body.sealed_secret (deposit_aad project)
        ≡ ok (as_bytes minted.token)

  -- A deposit that was answered was sent.
  deposit-sent :
      (base_url project token : Text) (body : DepositRequest c.DateTime)
      (receipt : DepositReceipt c.DateTime) (w w' : host.World)
      → deposit net parsers.receipt base_url project token body w ≡ (ok receipt, w')
      → (response : net.Response) × (after : host.World) × (net.send
            (deposit_call base_url project token body)
            w
          ≡ (ok response, after))
  unfolding deposit
  deposit-sent base_url project token body receipt w w' h =
      let call = deposit_call base_url project token body in
      let (response, after, sent, _) =
        run_next-eq_ok {E = Client.Error net} (convert_io (requesting call.url) (net.send call) w) _
          receipt w' h in
      (
        response,
        after,
        convert_io-eq_ok {F = Client.Error net} (requesting call.url) (net.send call w) response
            after sent,
      )

  -- A deposit that succeeded was answered by Ferryman under the deposit route of its project; it
  -- carried the metadata of the minted token, and a secret that the owner of the ingestion key opens,
  -- under the associated data of that project, to the bytes of the token.
  pub deposit_with-Sent :
      (laws : IsSound crypto)
      (random : (n : ℕ) (w : host.World) → length (process.fill_bytes n w).0 ≡ n)
      (args : MintGithub) (minted : MintedToken c.DateTime) (base_url project token : Text)
      (recipient_secret : Bytes) (w w' : host.World)
      → (fetch_ingestion_key net parsers.key_response base_url project token
          (process.utc_now w).1).0
        ≡ ok (crypto.hex_encode (crypto.public_key recipient_secret))
      → deposit_with c host net j crypto process parsers args minted (base_url, project, token) w
        ≡ (ok tt, w')
      → Sent args minted base_url project token recipient_secret
  unfolding deposit_with
  deposit_with-Sent laws random args minted base_url project token recipient_secret w w' h k =
      let (at, w1) = process.utc_now w in
      let fetch = fetch_ingestion_key net parsers.key_response base_url project token in
      let (key, w2, fetched, e) =
        run_next-eq_ok {E = Failure} (convert_io client fetch w1) _ tt w' k in
      let key_is : key ≡ crypto.hex_encode (crypto.public_key recipient_secret) =
        cc (h, ap (λ r. r.0) (convert_io-eq_ok {F = Failure} client (fetch w1) key w2 fetched)) in
      let sealing = λ (hex : Text).
        seal_for_ingestion crypto process.fill_bytes hex (deposit_aad project) minted.token in
      let (sealed, w3, done, rest) =
        run_next-eq_ok {E = Failure} (convert_io seal (sealing key) w2) _ tt w' e in
      let (id_bytes, w4) = process.fill_bytes 8 w3 in
      let (now, w5) = process.utc_now w4 in
      let body : DepositRequest c.DateTime = record {
        deposit_id = process.format_compact now ++ (codes "-" ++ crypto.hex_encode id_bytes);
        sealed_secret = sealed;
        metadata = deposit_metadata c host net j crypto process parsers args minted at;
      } in
      let put = deposit net parsers.receipt base_url project token body in
      let (receipt, w6, answered, _) =
        run_next-eq_ok {E = Failure} (convert_io client put w5) _ tt w' rest in
      let (response, after, sent) =
        deposit-sent base_url project token body receipt w5 w6
          (convert_io-eq_ok {F = Failure} client (put w5) receipt w6 answered) in
      record {
        body = body;
        acquired_at = at;
        response = response;
        before = w5;
        after = after;
        sent = sent;
        described = refl;
        opens =
            open-seal_for_ingestion crypto laws process.fill_bytes random recipient_secret
              (deposit_aad project) minted.token sealed w2 w3
              (rw (← key_is) (convert_io-eq_ok {F = Failure} seal (sealing key w2) sealed w3 done));
      }
