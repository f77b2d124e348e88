-- ===== src/Cli/Main.antt =====
-- `main`: the choice of the subcommand, and `serve`.
use custodly.Prelude.{ℕ, ◌++◌, Option, none, some, Result, Io, convert_io, ◌>>>◌}
use custodly.Text.{Text, codes}
use custodly.Contract.{contract_version}
use custodly.Chrono.{Chrono}
use custodly.Net.{Net}
use custodly.Seal.{Crypto}
use custodly.Github.Jwt.{Jwt}
use custodly.Vault.Host.{Host}
use custodly.Server.{PolicyQuery, Body, app}
use custodly.Cli.{MintGithub}
use custodly.Cli.Mint.{Process, Parsers, mint_github}
use custodly.Cli.Credential.{GitCredential, git_credential}
use custodly.Vault.Store
use custodly.Cli.Mint

pub data Command : Type 0 where
  serve : (listen : Text) → Command
  mint : MintGithub → Command
  credential : GitCredential → Command

-- `TcpListener::bind`, `axum::serve` and `eprintln!`.
pub record Runtime (World : Type 0) : Type 1 where
  pub IoError : Type 0
  pub Listener : Type 0
  pub bind : Text → World → Result IoError Listener × World
  pub serve_app :
      Listener
      → (Text → Option PolicyQuery → Option Body)
      → World
      → Result IoError (Unit {0}) × World
  pub eprintln : Text → World → World

pub data MainError (IoError MintError StoreError : Type 0) : Type 0 where
  serving : IoError → MainError IoError MintError StoreError
  minting : MintError → MainError IoError MintError StoreError
  reading : StoreError → MainError IoError MintError StoreError

-- How the process ends: with what `main` returns, or by `exit`.
pub data Ending (E : Type 0) : Type 0 where
  returned : Result E (Unit {0}) → Ending E
  exited : ℕ → Ending E

abbrev pub no_subcommand : Text
no_subcommand =
    codes "custodly: no subcommand given ("
    ++ (contract_version
        ++ codes
            "). See docs/mvp-scope.md for what's decided and docs/START-HERE.md's order of work for what's next. Run `custodly serve` to start the policy() listener, or `custodly mint-github --help` for the Track 1 pilot.")

module _ (c : Chrono) (host : Host) (net : Net host.World) (j : Jwt) (crypto : Crypto)
    (process : Process host.World c.DateTime) (parsers : Parsers c.DateTime net.RequestError)
    (runtime : Runtime host.World) where
  open runtime use {bind, serve_app, eprintln}

  abbrev pub Error : Type 0
  Error =
      MainError runtime.IoError (Mint.Error c host net j crypto process parsers) (Store.Error host)

  unfoldable pub run_serve : Text → Io host.World Error (Unit {0})
  run_serve listen =
      convert_io serving (bind listen) >>> λ listener. convert_io serving (serve_app listener app)

  unfoldable pub run_command : Command → Io host.World Error (Unit {0})
  run_command (serve listen) = run_serve listen
  run_command (mint args) =
      convert_io minting (mint_github c host net j crypto process parsers args)
  run_command (credential args) = convert_io reading (git_credential c host process args)

  unfoldable pub main : Option Command → host.World → Ending Error × host.World
  main (some command) w = let (r, w') = run_command command w in (returned r, w')
  main none w = (exited 1, eprintln no_subcommand w)
