-- ===== src/Cli/Mint.antt =====
-- The `mint-github` subcommand: mint, deposit where the credential has to leave the machine, and
-- cache it locally unless it is for someone else.
use custodly.Prelude.{
  ℕ, Bool, ◌++◌, none, some, Result, ok, Io, returns, fails, map_err, convert_io, ◌>>>◌,
  if◌then◌else◌, ◌||◌, is_empty,
}
use custodly.Text.{Text, codes, trim}
use custodly.Text.Decimal.{decimal}
use custodly.Text.Utf8.{Bytes}
use custodly.Tier.{Tier, is_tier2, as_u8}
use custodly.Contract.{DepositMetadata, DepositReceipt, track1_api}
use custodly.Entry.{
  EntryMetadataError, VaultEntry, new_metadata, new_entry, github_app_installation_token,
}
use custodly.Chrono.{Chrono}
use custodly.Net.{Net}
use custodly.Seal.{Crypto, SealError, seal_for_ingestion, deposit_aad}
use custodly.Client.{ClientError, Response, fetch_ingestion_key, deposit}
use custodly.Github.{GithubError, MintedToken, InstallationTokenResponse}
use custodly.Github.Jwt.{Jwt}
use custodly.Github.Mint.{mint_installation_token}
use custodly.Vault.Host.{Host}
use custodly.Vault.Store.{Vault, VaultError, put}
use custodly.Cli.{MintGithub, app_of, grant_of, ferryman_flags}

-- The process around the subcommands.
pub record Process (World DateTime : Type 0) : Type 1 where
  pub StdinError : Type 0
  pub read_to_string : World → Result StdinError Text × World
  pub utc_now : World → DateTime × World
  pub fill_bytes : ℕ → World → Bytes × World
  pub println : Text → World → World
  -- `format("%Y%m%dT%H%M%SZ")`.
  pub format_compact : DateTime → Text

pub data CliError (StdinError JwtError RequestError IoError KeyringError : Type 0) : Type 0 where
  stdin : StdinError → CliError StdinError JwtError RequestError IoError KeyringError
  no_private_key : CliError StdinError JwtError RequestError IoError KeyringError
  github :
      GithubError JwtError RequestError
      → CliError StdinError JwtError RequestError IoError KeyringError
  missing_flags :
      (tier : ℕ) (for_recipient : Bool)
      → CliError StdinError JwtError RequestError IoError KeyringError
  client : ClientError RequestError → CliError StdinError JwtError RequestError IoError KeyringError
  seal : SealError → CliError StdinError JwtError RequestError IoError KeyringError
  metadata : EntryMetadataError → CliError StdinError JwtError RequestError IoError KeyringError
  vault :
      VaultError IoError KeyringError
      → CliError StdinError JwtError RequestError IoError KeyringError

-- What the derived `Deserialize` instances read.
pub record Parsers (DateTime RequestError : Type 0) : Type 0 where
  pub token_response : Text → Result RequestError (InstallationTokenResponse DateTime)
  pub key_response : Text → Result RequestError Response
  pub receipt : Text → Result RequestError (DepositReceipt DateTime)

abbrev pub recipient_notice : Text
recipient_notice =
    codes "not cached locally (--for-recipient): delivery is Ferryman's job from here"

abbrev pub needs_ferryman_deposit : Tier → Bool → Bool
needs_ferryman_deposit tier for_recipient = is_tier2 tier || for_recipient

module _ (c : Chrono) (host : Host) (net : Net host.World) (j : Jwt) (crypto : Crypto)
    (process : Process host.World c.DateTime) (parsers : Parsers c.DateTime net.RequestError) where
  open host use {World}
  open process use {read_to_string, utc_now, fill_bytes, println, format_compact}

  abbrev pub Error : Type 0
  Error = CliError process.StdinError j.JwtError net.RequestError host.IoError host.KeyringError

  abbrev pub say : Text → Io World Error (Unit {0})
  say line w = (ok tt, println line w)

  abbrev pub pure_now : Io World Error c.DateTime
  pure_now w = let (t, w') = utc_now w in (ok t, w')

  abbrev pub random : ℕ → Io World Error Bytes
  random n w = let (b, w') = fill_bytes n w in (ok b, w')

  abbrev pub deposit_metadata :
      MintGithub → MintedToken c.DateTime → c.DateTime → DepositMetadata c.DateTime
  deposit_metadata args minted now = record {
    project = args.project;
    provider = codes "github";
    scope = minted.scope_string;
    tier = as_u8 minted.tier;
    acquired_via = track1_api;
    acquired_at = now;
    expires_at = some minted.expires_at;
    label = args.label;
  }

  abbrev pub deposited_line : MintedToken c.DateTime → DepositReceipt c.DateTime → Text
  deposited_line minted receipt =
      codes "deposited with Ferryman: "
      ++ (receipt.deposit_id
          ++ (codes " (tier "
              ++ (decimal (as_u8 minted.tier)
                  ++ (codes ", accepted " ++ (c.to_rfc3339 receipt.accepted_at ++ codes ")")))))

  -- The deposit, with all three flags at hand.
  unfoldable pub deposit_with :
      MintGithub → MintedToken c.DateTime → Text × Text × Text → Io World Error (Unit {0})
  deposit_with args minted (base_url, ferryman_project, token) = pure_now >>> λ acquired_at.
      convert_io client
        (fetch_ingestion_key net parsers.key_response base_url ferryman_project token)
      >>> λ ingestion_key_hex.
          convert_io seal (
            seal_for_ingestion crypto fill_bytes ingestion_key_hex (deposit_aad ferryman_project)
              minted.token)
          >>> λ sealed. random 8 >>> λ id_bytes. pure_now >>> λ now.
              convert_io client (
                deposit net parsers.receipt base_url ferryman_project token (record {
                  deposit_id = format_compact now ++ (codes "-" ++ crypto.hex_encode id_bytes);
                  sealed_secret = sealed;
                  metadata = deposit_metadata args minted acquired_at;
                }))
              >>> λ receipt. say (deposited_line minted receipt)

  unfoldable pub deposit_step : MintGithub → MintedToken c.DateTime → Io World Error (Unit {0})
  deposit_step args minted w =
      elim (ferryman_flags args.ferryman_base_url args.ferryman_project args.ferryman_token) [
        | none ↦ fails (missing_flags (as_u8 minted.tier) args.for_recipient) w
        | some flags ↦ deposit_with args minted flags w
      ]

  abbrev pub source_description : MintGithub → MintedToken c.DateTime → Text
  source_description args minted =
      codes "GitHub App installation token, app "
      ++ (decimal args.app_id
          ++ (codes ", installation "
              ++ (decimal args.installation_id ++ (codes ", " ++ minted.scope_string))))

  abbrev pub cached_line : MintGithub → MintedToken c.DateTime → Text
  cached_line args minted =
      codes "cached locally: "
      ++ (args.project
          ++ (codes "/"
              ++ (args.label
                  ++ (codes " (tier "
                      ++ (decimal (as_u8 minted.tier)
                          ++ (codes ", expires "
                              ++ (c.to_rfc3339 minted.expires_at ++ codes ")")))))))

  abbrev pub vault_of : MintGithub → Vault
  vault_of args = record {
    cli_path = args.cli_path;
    db_path = args.vault;
    keyring_name = args.keyring_name;
  }

  module _ (store : VaultEntry c.DateTime → Io World Error (Unit {0})) where
    -- The metadata, the entry, and the vault's `put`, which is `store`.
    unfoldable pub cache_step : MintGithub → MintedToken c.DateTime → Io World Error (Unit {0})
    cache_step args minted = pure_now >>> λ now.
        (λ w. (
          map_err metadata (
              new_metadata (codes "github") args.project (source_description args minted)
                github_app_installation_token now (some minted.expires_at) minted.tier),
          w,
        ))
        >>> λ m. store (new_entry args.label m minted.token) >>> λ _. say (cached_line args minted)

    module _ (leave : MintGithub → MintedToken c.DateTime → Io World Error (Unit {0})) where
      -- What follows the minting; `leave` is the deposit.
      unfoldable pub after_mint : MintGithub → MintedToken c.DateTime → Io World Error (Unit {0})
      after_mint args minted =
          (if needs_ferryman_deposit minted.tier args.for_recipient
            then leave args minted
            else returns tt)
          >>> λ _. if args.for_recipient then say recipient_notice else cache_step args minted

  unfoldable pub read_key : Io World Error Text
  read_key = convert_io stdin read_to_string >>> λ pem.
      if is_empty (trim pem) then fails no_private_key else returns pem

  -- The subcommand.
  unfoldable pub mint_github : MintGithub → Io World Error (Unit {0})
  mint_github args = read_key >>> λ pem.
      convert_io github (
        mint_installation_token net c j parsers.token_response utc_now (app_of args pem)
          (grant_of args))
      >>> after_mint (λ entry. convert_io vault (put host c (vault_of args) entry)) deposit_step
          args
