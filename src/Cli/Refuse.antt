-- ===== src/Cli/Refuse.antt =====
-- A `mint-github` whose grant is refused.
use custodly.Prelude.{◌≡◌, ok, err}
use custodly.Text.{Text}
use custodly.Chrono.{Chrono}
use custodly.Net.{Net}
use custodly.Seal.{Crypto}
use custodly.Github.{GithubError}
use custodly.Github.Jwt.{Jwt}
use custodly.Github.Mint.{mint_installation_token}
use custodly.Vault.Host.{Host}
use custodly.Cli.{MintGithub, app_of, grant_of}
use custodly.Cli.Mint.{Process, Parsers, mint_github, read_key, github}

module _ (c : Chrono) (host : Host) (net : Net host.World) (j : Jwt) (crypto : Crypto)
    (process : Process host.World c.DateTime) (parsers : Parsers c.DateTime net.RequestError) where
  -- If the key is read and the minting fails, scope creep included, the run ends with that error in
  -- the world that the minting left, so nothing is deposited, stored or printed after it.
  mint_github_refused :
      (args : MintGithub) (pem : Text) (e : GithubError j.JwtError net.RequestError)
      (w v w' : host.World)
      → read_key c host net j crypto process parsers w ≡ (ok pem, v)
      → mint_installation_token net c j parsers.token_response process.utc_now
          (app_of args pem)
          (grant_of args)
          v
        ≡ (err e, w')
      → mint_github c host net j crypto process parsers args w ≡ (err (github e), w')
  unfolding mint_github
  mint_github_refused args pem e w v w' h k = rw (h, k)
