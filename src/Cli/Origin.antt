-- ===== src/Cli/Origin.antt =====
-- The entries of the vault over a history of runs: where they come from, and what becomes of them.
use custodly.Prelude.{◌≡◌}
use custodly.Text.{Text}
use custodly.Chrono.{Chrono}
use custodly.Net.{Net}
use custodly.Seal.{Crypto}
use custodly.Github.Jwt.{Jwt}
use custodly.Vault.Host.{Host}
use custodly.Vault.Store.{Vault}
use custodly.Vault.Database.{IsDatabase}
use custodly.Cli.{MintGithub}
use custodly.Cli.Audit.{Issued}
use custodly.Cli.Main.{Runtime}
use custodly.Cli.Mint.{Process, Parsers, vault_of}
use custodly.Cli.History.{Occurs, Reach}

module _ (c : Chrono) (host : Host) (net : Net host.World) (j : Jwt) (crypto : Crypto)
    (process : Process host.World c.DateTime) (parsers : Parsers c.DateTime net.RequestError)
    (runtime : Runtime host.World) (v : Vault) where
  module _ (db : IsDatabase host v) where
    -- A run of this very history, on this vault, put the entry there.
    abbrev pub HasOrigin :
        (start w : host.World)
        → Reach c host net j crypto process parsers runtime v db start w
        → (path secret notes : Text) → Type 0
    HasOrigin start w reached path secret notes =
        (args : MintGithub) × (before : host.World) × Occurs c host net j crypto process parsers
          runtime v db start w reached args before
        × (vault_of c host net j crypto process parsers args ≡ v)
        × Issued c host net j crypto process parsers args before path secret notes
