-- ===== src/Wire/Deposit.antt =====
-- A deposit as Ferryman receives it: the text of the body, what it parses as, and what the sealed
-- secret in it opens to.
use custodly.Prelude.{ℕ, ◌≡◌, ◌<◌, ap, ◌∙◌, some, ok, ◌>>=◌, length, arith, ◌++◌, refl, []}
use custodly.Text.{Text, codes}
use custodly.Text.Utf8.{Bytes, as_bytes}
use custodly.Map.{Map, get}
use custodly.Chrono.{Chrono}
use custodly.Net.{Net, post}
use custodly.Policy.Gate.{as_u8_le}
use custodly.Tier.{Tier, tier0, tier1, tier2, as_u8}
use custodly.Contract.{SealedSecret, DepositMetadata, track1_api}
use custodly.Seal.{Crypto, deposit_aad}
use custodly.Seal.Open.{IsSound, open_sealed}
use custodly.Client.{DepositRequest, fetch_ingestion_key}
use custodly.Github.{MintedToken}
use custodly.Github.Jwt.{Jwt}
use custodly.Vault.Host.{Host}
use custodly.Cli.{MintGithub}
use custodly.Cli.Mint.{Process, Parsers, deposit_with, deposit_metadata}
use custodly.Cli.Deposit.{Sent, deposit_with-Sent}
use custodly.Wire.{Serde, IsSerde}
use custodly.Wire.Write.{write_deposit}
use custodly.Wire.Read.{parse_metadata, parse_sealed}
use custodly.Wire.Messages.{write_deposit_fields}

-- A tier's number in the contract.
abbrev pub IsTierNumber : Tier → ℕ → Type 0
IsTierNumber tier0 n = n ≡ 0
IsTierNumber tier1 n = n ≡ 1
IsTierNumber tier2 n = n ≡ 2

as_u8-IsTierNumber : (t : Tier) → IsTierNumber t (as_u8 t)
unfolding as_u8
as_u8-IsTierNumber tier0 = refl
as_u8-IsTierNumber tier1 = refl
as_u8-IsTierNumber tier2 = refl

module _ (c : Chrono) (host : Host) (net : Net host.World) (j : Jwt) (crypto : Crypto)
    (process : Process host.World c.DateTime) (parsers : Parsers c.DateTime net.RequestError)
    (s : Serde c.DateTime) where
  -- Metadata that describes the token, under the project and the label of the command.
  pub record Describes (args : MintGithub) (minted : MintedToken c.DateTime)
      (metadata : DepositMetadata c.DateTime) : Type 0 where
    pub project : metadata.project ≡ args.project
    pub provider : metadata.provider ≡ codes "github"
    pub scope : metadata.scope ≡ minted.scope_string
    pub tier : IsTierNumber minted.tier metadata.tier
    pub acquired_via : metadata.acquired_via ≡ track1_api
    pub expires_at : metadata.expires_at ≡ some minted.expires_at
    pub label : metadata.label ≡ args.label

  deposit_metadata-Describes :
      (args : MintGithub) (minted : MintedToken c.DateTime) (now : c.DateTime)
      → Describes args minted (deposit_metadata c host net j crypto process parsers args minted now)
  deposit_metadata-Describes args minted now = record {
    project = refl;
    provider = refl;
    scope = refl;
    tier = as_u8-IsTierNumber minted.tier;
    acquired_via = refl;
    expires_at = refl;
    label = refl;
  }

  -- A request that was answered, and what the text of its body holds: metadata that describes the
  -- minted token, and a secret that the recipient opens to it.
  pub record Received (args : MintGithub) (minted : MintedToken c.DateTime)
      (base_url project token : Text) (recipient_secret : Bytes) : Type 0 where
    pub body : DepositRequest c.DateTime
    pub response : net.Response
    pub before : host.World
    pub after : host.World
    pub sent :
        net.send
          (record {
            method = post;
            url = base_url ++ (codes "/v1/projects/" ++ (project ++ codes "/boundary/deposit"));
            bearer = token;
            headers = [];
            body = some body;
          })
          before
        ≡ (ok response, after)
    pub fields : Map s.Value
    pub parsed : (s.from_str (s.to_string (write_deposit s body)) >>= s.as_object) ≡ some fields
    pub metadata : DepositMetadata c.DateTime
    pub has_metadata : (get (codes "metadata") fields >>= parse_metadata s) ≡ some metadata
    pub describes : Describes args minted metadata
    pub sealed : SealedSecret
    pub sealed_secret : (get (codes "sealed_secret") fields >>= parse_sealed s) ≡ some sealed
    pub opens :
        open_sealed crypto recipient_secret sealed
          (as_bytes (codes "boundary/v1\ncustodly-ingestion\n" ++ project))
        ≡ ok (as_bytes minted.token)

  Sent-Received :
      (laws : IsSerde s) (args : MintGithub) (minted : MintedToken c.DateTime)
      (base_url project token : Text) (recipient_secret : Bytes)
      → Sent c host net j crypto process parsers args minted base_url project token recipient_secret
      → Received args minted base_url project token recipient_secret
  unfolding deposit_aad
  Sent-Received laws args minted base_url project token recipient_secret sent =
      let small : sent.body.metadata.tier < 256 =
        rw sent.described (omega (arith, as_u8_le minted.tier)) in
      let (fields, parsed, _, sealed, metadata, _) = write_deposit_fields s laws sent.body small in
      record {
        body = sent.body;
        response = sent.response;
        before = sent.before;
        after = sent.after;
        sent = sent.sent;
        fields = fields;
        parsed = parsed;
        metadata =
            deposit_metadata c host net j crypto process parsers args minted sent.acquired_at;
        has_metadata = metadata ∙ ap some sent.described;
        describes = deposit_metadata-Describes args minted sent.acquired_at;
        sealed = sent.body.sealed_secret;
        sealed_secret = sealed;
        opens = sent.opens;
      }

  -- A deposit that succeeded was answered, at `/v1/projects/<project>/boundary/deposit` behind the
  -- base URL. The JSON text of its body, parsed, has metadata with the command's project and label,
  -- and the scope, the expiry and the tier, as 0, 1 or 2, of the minted token; and a secret that the
  -- owner of the fetched ingestion key opens to the bytes of the token, under `boundary/v1`,
  -- `custodly-ingestion` and the project of the URL, joined by newlines; given the laws of the
  -- primitives and of the JSON text.
  pub deposit_with-Received :
      (laws : IsSerde s) (sound : IsSound crypto)
      (random : (n : ℕ) (w : host.World) → length (process.fill_bytes n w).0 ≡ n)
      (args : MintGithub) (minted : MintedToken c.DateTime) (base_url project token : Text)
      (recipient_secret : Bytes) (w w' : host.World)
      → (fetch_ingestion_key net parsers.key_response base_url project token
          (process.utc_now w).1).0
        ≡ ok (crypto.hex_encode (crypto.public_key recipient_secret))
      → deposit_with c host net j crypto process parsers args minted (base_url, project, token) w
        ≡ (ok tt, w')
      → Received args minted base_url project token recipient_secret
  deposit_with-Received laws sound random args minted base_url project token recipient_secret w w' h
        k =
      Sent-Received laws args minted base_url project token recipient_secret (
        deposit_with-Sent c host net j crypto process parsers sound random args minted base_url
          project token recipient_secret w w' h k)
