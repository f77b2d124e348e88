-- ===== src/Cli/Apart.antt =====
-- What a run of `mint-github` does not depend on: the vault if the credential is for someone else, and
-- Ferryman if it stays on the machine.
use custodly.Prelude.{run_next-same, ◌≡◌, true, false, ok, Io, Option}
use custodly.Text.{Text}
use custodly.Chrono.{Chrono}
use custodly.Net.{Net}
use custodly.Seal.{Crypto}
use custodly.Tier.{is_tier2}
use custodly.Entry.{VaultEntry}
use custodly.Github.{MintedToken}
use custodly.Github.Jwt.{Jwt}
use custodly.Github.Mint.{mint_installation_token}
use custodly.Vault.Host.{Host}
use custodly.Cli.{MintGithub, app_of, grant_of}
use custodly.Cli.Mint.{
  Process, Parsers, Error, mint_github, read_key, after_mint, deposit_step, deposit_with,
  cache_step,
}

abbrev pub with_vault : MintGithub → (vault cli_path keyring_name : Text) → MintGithub
with_vault args vault cli_path keyring_name = record args {
  vault = vault;
  cli_path = cli_path;
  keyring_name = keyring_name;
}

abbrev pub with_ferryman : MintGithub → (base_url project token : Option Text) → MintGithub
with_ferryman args base_url project token = record args {
  ferryman_base_url = base_url;
  ferryman_project = project;
  ferryman_token = token;
}

module _ (c : Chrono) (host : Host) (net : Net host.World) (j : Jwt) (crypto : Crypto)
    (process : Process host.World c.DateTime) (parsers : Parsers c.DateTime net.RequestError) where
  abbrev Step : Type 0
  Step = Io host.World (Error c host net j crypto process parsers) (Unit {0})

  after_mint_apart :
      (store store' : VaultEntry c.DateTime → Step) (args : MintGithub) (vault cli_path name : Text)
      (minted : MintedToken c.DateTime) (w : host.World)
      → args.for_recipient ≡ true
      → after_mint c host net j crypto process parsers store
          (deposit_step c host net j crypto process parsers)
          args
          minted
          w
        ≡ after_mint c host net j crypto process parsers store'
            (deposit_step c host net j crypto process parsers)
            (with_vault args vault cli_path name)
            minted
            w
  unfolding after_mint deposit_step deposit_with
  after_mint_apart store store' args vault cli_path name minted w h = rw h

  -- A run for someone else does the same whatever vault, program and keyring name it is given.
  pub mint_github-with_vault :
      (args : MintGithub) (vault cli_path name : Text) (w : host.World)
      → args.for_recipient ≡ true
      → mint_github c host net j crypto process parsers args w
        ≡ mint_github c host net j crypto process parsers (with_vault args vault cli_path name) w
  unfolding mint_github
  mint_github-with_vault args vault cli_path name w h =
      run_next-same (read_key c host net j crypto process parsers w) _ _ (λ pem v.
        run_next-same _ _ _ (λ minted u. after_mint_apart _ _ args vault cli_path name minted u h))

  -- A run for the local user whose token is below tier 2 does the same whatever Ferryman flags it is
  -- given.
  pub mint_github-with_ferryman :
      (args : MintGithub) (base_url project token : Option Text) (pem : Text)
      (minted : MintedToken c.DateTime) (w v u : host.World)
      → args.for_recipient ≡ false
      → read_key c host net j crypto process parsers w ≡ (ok pem, v)
      → mint_installation_token net c j parsers.token_response process.utc_now
          (app_of args pem)
          (grant_of args)
          v
        ≡ (ok minted, u)
      → is_tier2 minted.tier ≡ false
      → mint_github c host net j crypto process parsers args w
        ≡ mint_github c host net j crypto process parsers
            (with_ferryman args base_url project token)
            w
  unfolding mint_github after_mint cache_step
  mint_github-with_ferryman args base_url project token pem minted w v u mine read granted low =
      rw (read, granted, mine, low)
