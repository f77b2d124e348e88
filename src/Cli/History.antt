-- ===== src/Cli/History.antt =====
-- The program over time: any number of runs of `main`, each with its own subcommand, on one vault.
use custodly.Prelude.{◌≡◌, ◌∙◌, sym, subst, Option, some, none, not, convert_io, ◌⊎◌}
use custodly.Text.{Text, codes, eq_text}
use custodly.Chrono.{Chrono}
use custodly.Net.{Net}
use custodly.Seal.{Crypto}
use custodly.Github.Jwt.{Jwt}
use custodly.Server.{app}
use custodly.Vault.Host.{Host}
use custodly.Vault.Store.{Vault, get, put}
use custodly.Vault.Database.{IsDatabase}
use custodly.Vault.Outcome.{get-same}
use custodly.Cli.Credential.{GitCredential, git_credential, credential_vault, credential_query}
use custodly.Cli.Keeps.{IsApart, run_next-Keeps, if-kept}
use custodly.Cli.{MintGithub}
use custodly.Cli.Main.{
  Command, serve, mint, credential, Runtime, run_command, run_serve, main, serving,
}
use custodly.Cli.Mint.{Process, Parsers, vault_of}
use custodly.Vault.Store
use custodly.Cli.Main

module _ (c : Chrono) (host : Host) (net : Net host.World) (j : Jwt) (crypto : Crypto)
    (process : Process host.World c.DateTime) (parsers : Parsers c.DateTime net.RequestError)
    (runtime : Runtime host.World) (v : Vault) where
  -- The subcommand works on the vault.
  abbrev pub Names : Option Command → Type 0
  Names (some (mint args)) = vault_of c host net j crypto process parsers args ≡ v
  Names (some (credential args)) = credential_vault args ≡ v
  Names (some (serve listen)) = Unit
  Names none = Unit

  module _ (db : IsDatabase host v) where
    -- What is reached by runs of the program on the vault, and by whatever leaves its entries alone.
    pub data Reach (start : host.World) : host.World → Type 0 where
      begin : Reach start start
      ran :
          (w : host.World) (command : Option Command)
          → Reach start w
          → Names command
          → Reach start (main c host net j crypto process parsers runtime command w).1
      passed : (w u : host.World) → Reach start w → db.stored u ≡ db.stored w → Reach start u

    -- The history has a run of `mint-github` with these arguments, from this world.
    abbrev pub Occurs : (start w : host.World) → Reach start w → MintGithub → host.World → Type 0
    Occurs start _ begin args before = ⊥
    Occurs start _ (passed w u reached same) args before = Occurs start w reached args before
    Occurs start _ (ran w none reached named) args before = Occurs start w reached args before
    Occurs start _ (ran w (some (serve listen)) reached named) args before =
        Occurs start w reached args before
    Occurs start _ (ran w (some (credential other)) reached named) args before =
        Occurs start w reached args before
    Occurs start _ (ran w (some (mint this)) reached named) args before =
        ((this ≡ args) × (w ≡ before)) ⊎ Occurs start w reached args before

    -- The listener and the error stream leave the entries alone.
    pub record IsServing : Type 0 where
      pub binding :
          (listen : Text) (w : host.World) → db.stored (runtime.bind listen w).1 ≡ db.stored w
      pub serving :
          (l : runtime.Listener) (w : host.World)
          → db.stored (runtime.serve_app l app w).1 ≡ db.stored w
      pub complaining :
          (line : Text) (w : host.World) → db.stored (runtime.eprintln line w) ≡ db.stored w

    module _ (apart : IsApart net process db.stored) (quiet : IsServing) where
      pub run_serve-same :
          (listen : Text) (w : host.World)
          → db.stored (run_serve c host net j crypto process parsers runtime listen w).1
            ≡ db.stored w
      unfolding run_serve
      run_serve-same listen w =
          run_next-Keeps db.stored {E = Main.Error c host net j crypto process parsers runtime}
            {B = Unit {0}} (convert_io Main.serving (runtime.bind listen) w) _ (db.stored w)
            (quiet.binding listen w) (λ l u. quiet.serving l u)

      get_in :
          (args : GitCredential) (w : host.World)
          → credential_vault args ≡ v
          → db.stored (get host c (credential_vault args) (credential_query args) w).1 ≡ db.stored w
      get_in args w this =
          subst (λ x. db.stored (get host c x (credential_query args) w).1 ≡ db.stored w) (sym this)
            (get-same host v db c (credential_query args) w)

      pub git_credential-same :
          (args : GitCredential) (w : host.World)
          → credential_vault args ≡ v
          → db.stored (git_credential c host process args w).1 ≡ db.stored w
      unfolding git_credential
      git_credential-same args w this =
          let drained = (process.read_to_string w).1 in
          let had = apart.draining w in
          if-kept db.stored (not (eq_text args.action (codes "get"))) _ _ (db.stored w) had (
            run_next-Keeps db.stored {E = Store.Error host}
              (get host c (credential_vault args) (credential_query args) drained) _ (db.stored w)
              (get_in args drained this ∙ had) (λ entry u. apart.printing _ _ ∙ apart.printing _ _))
