-- ===== src/Cli/Live.antt =====
-- The parts of `mint-github` behind the minting: the deposit if it is needed, and the metadata.
use custodly.Prelude.{some, Io, if◌then◌else◌, returns}
use custodly.Text.{codes, trim, trim_start, trim_end, is_whitespace}
use custodly.Chrono.{Chrono}
use custodly.Net.{Net}
use custodly.Seal.{Crypto}
use custodly.Entry.{EntryMetadata, github_app_installation_token}
use custodly.Entry.Build.{IsBlank}
use custodly.Github.{MintedToken}
use custodly.Github.Jwt.{Jwt}
use custodly.Vault.Host.{Host}
use custodly.Cli.{MintGithub}
use custodly.Cli.Mint.{
  Process, Parsers, Error, deposit_step, needs_ferryman_deposit, source_description,
}

module _ (c : Chrono) (host : Host) (net : Net host.World) (j : Jwt) (crypto : Crypto)
    (process : Process host.World c.DateTime) (parsers : Parsers c.DateTime net.RequestError) where
  abbrev Step : Type 0
  Step = Io host.World (Error c host net j crypto process parsers) (Unit {0})

  -- The metadata that a minted token is cached under.
  abbrev pub cached_metadata :
      MintGithub → MintedToken c.DateTime → c.DateTime → EntryMetadata c.DateTime
  cached_metadata args minted now = record {
    provider = codes "github";
    project = args.project;
    source_description = source_description c host net j crypto process parsers args minted;
    acquired_via = github_app_installation_token;
    acquired_at = now;
    expires_at = some minted.expires_at;
    tier = minted.tier;
  }

  -- The description of the source is never blank.
  pub source_description-IsBlank :
      (args : MintGithub) (minted : MintedToken c.DateTime)
      → ¬ IsBlank (source_description c host net j crypto process parsers args minted)
  unfolding trim trim_start trim_end is_whitespace
  source_description-IsBlank args minted h = cc h

  abbrev pub leave : MintGithub → MintedToken c.DateTime → Step
  leave args minted =
      if needs_ferryman_deposit minted.tier args.for_recipient
      then deposit_step c host net j crypto process parsers args minted
      else returns tt
