-- ===== src/Cli/Stop.antt =====
-- That a failing `mint-github` stopped at one of its stages.
use custodly.Prelude.{
  ◌≡◌, ap, sym, true, false, some, ok, err, Io, convert_io, run_next-fails, convert_io-eq_err,
  Bool-cases, Option-cases, inl, inr, is_empty, fails_eq, subst, convert_io-eq_ok, ◌⊎◌,
}
use custodly.Text.{Text, codes, trim}
use custodly.Chrono.{Chrono}
use custodly.Net.{Net}
use custodly.Seal.{Crypto}
use custodly.Entry.{
  empty_project, new_entry, new_metadata, github_app_installation_token, VaultEntry,
}
use custodly.Entry.Build.{IsBlank, new_metadata_outcome}
use custodly.Github.{MintedToken}
use custodly.Github.Jwt.{Jwt}
use custodly.Github.Mint.{mint_installation_token}
use custodly.Vault.Host.{Host}
use custodly.Vault.Store.{put}
use custodly.Cli.{MintGithub, ferryman_flags, app_of, grant_of}
use custodly.Cli.Live.{cached_metadata, source_description-IsBlank, leave}
use custodly.Cli.Mint.{
  Process, Parsers, Error, needs_ferryman_deposit, deposit_step, cache_step, after_mint,
  mint_github, read_key, source_description, vault, github, vault_of, stdin,
}
use custodly.Cli.Stages.{
  Minted, Stopped, unread, no_key, not_minted, without_flags, not_deposited, untraceable,
  not_stored,
}

module _ (c : Chrono) (host : Host) (net : Net host.World) (j : Jwt) (crypto : Crypto)
    (process : Process host.World c.DateTime) (parsers : Parsers c.DateTime net.RequestError) where
  abbrev Failure : Type 0
  Failure = Error c host net j crypto process parsers

  abbrev Halted : MintGithub → host.World → Failure → host.World → Type 0
  Halted = Stopped c host net j crypto process parsers

  -- The stages that need no token.
  read_key-Stopped :
      (args : MintGithub) (w w' : host.World) (e : Failure)
      → read_key c host net j crypto process parsers w ≡ (err e, w')
      → Halted args w e w'
  unfolding read_key
  read_key-Stopped args w w' e h =
      elim (run_next-fails (convert_io stdin process.read_to_string w) _ e w' h) [
        | inl failed ↦
            let (x, read, is) =
              convert_io-eq_err {F = Failure} stdin (process.read_to_string w) e w' failed in
            unread x read is
        | inr (pem, v, read, checked) ↦ elim (Bool-cases (is_empty (trim pem))) [
          | inl blank ↦
              let (is, at) = fails_eq {E = Failure} {A = Text} (rw blank at checked) in
              no_key pem
                (rw (← at)
                  (convert_io-eq_ok {F = Failure} stdin (process.read_to_string w) pem v read))
                blank (sym is)
          | inr present ↦ cc (ap (λ p. p.0) (rw present at checked))
        ]
      ]

  deposit_step-Stopped :
      (args : MintGithub) (minted : MintedToken c.DateTime) (w u w' : host.World) (e : Failure)
      → Minted c host net j crypto process parsers args w minted u
      → needs_ferryman_deposit minted.tier args.for_recipient ≡ true
      → deposit_step c host net j crypto process parsers args minted u ≡ (err e, w')
      → Halted args w e w'
  unfolding deposit_step
  deposit_step-Stopped args minted w u w' e m needed h =
      elim (Option-cases
        (ferryman_flags args.ferryman_base_url args.ferryman_project args.ferryman_token)) [
          | inl missing ↦
              let (is, at) =
                fails_eq {E = Failure} {A = Unit {0}} (rw (missing, deposit_step) at h) in
              without_flags minted
                (subst (Minted c host net j crypto process parsers args w minted) at m) needed
                missing (sym is)
          | inr (flags, given) ↦
              not_deposited minted u flags m needed given (rw (given, deposit_step) at h)
        ]

  leave-Stopped :
      (args : MintGithub) (minted : MintedToken c.DateTime) (w u w' : host.World) (e : Failure)
      → Minted c host net j crypto process parsers args w minted u
      → leave c host net j crypto process parsers args minted u ≡ (err e, w')
      → Halted args w e w'
  leave-Stopped args minted w u w' e m h =
      elim (Bool-cases (needs_ferryman_deposit minted.tier args.for_recipient)) [
        | inl needed ↦ deposit_step-Stopped args minted w u w' e m needed (rw needed at h)
        | inr local ↦ cc (ap (λ p. p.0) (rw local at h))
      ]

  -- The metadata is refused only for a blank project.
  pub cached_built :
      (args : MintGithub) (minted : MintedToken c.DateTime) (now : c.DateTime)
      → let built =
          new_metadata
            (codes "github")
            args.project
            (source_description c host net j crypto process parsers args minted)
            github_app_installation_token
            now
            (some minted.expires_at)
            minted.tier in
        (IsBlank args.project × (built ≡ err empty_project))
        ⊎ (built ≡ ok (cached_metadata c host net j crypto process parsers args minted now))
  cached_built args minted now =
      let all =
        new_metadata_outcome
          (cached_metadata c host net j crypto process parsers args minted now) in
      elim (Bool-cases (is_empty (trim args.project))) [
        | inl blank ↦ inl (blank, all.1.1 blank)
        | inr named ↦ inr (
            all.0.1 (record {
              has_project = λ b. cc;
              has_description =
                  source_description-IsBlank c host net j crypto process parsers args minted;
            }))
      ]

  abbrev stores : MintGithub → VaultEntry c.DateTime → Io host.World Failure (Unit {0})
  stores args entry =
      convert_io vault (put host c (vault_of c host net j crypto process parsers args) entry)

  cache_step-Stopped :
      (args : MintGithub) (minted : MintedToken c.DateTime) (w u v w' : host.World) (e : Failure)
      → Minted c host net j crypto process parsers args w minted u
      → leave c host net j crypto process parsers args minted u ≡ (ok tt, v)
      → args.for_recipient ≡ false
      → cache_step c host net j crypto process parsers (stores args) args minted v ≡ (err e, w')
      → Halted args w e w'
  unfolding cache_step
  cache_step-Stopped args minted w u v w' e m left mine h =
      let (now, v1) = process.utc_now v in
      elim (cached_built args minted now) [
        | inl (blank, refused) ↦
            let (is, at) = fails_eq {E = Failure} {A = Unit {0}} (rw refused at h) in
            untraceable minted u v m left mine blank (sym is) (sym at)
        | inr built ↦
            let entry =
              new_entry args.label
                (cached_metadata c host net j crypto process parsers args minted now)
                minted.token in
            elim (run_next-fails (stores args entry v1) _ e w' (rw built at h)) [
              | inl failed ↦
                  let (x, put_failed, is) =
                    convert_io-eq_err {F = Failure} vault
                      (put host c (vault_of c host net j crypto process parsers args) entry v1) e w'
                      failed in
                  not_stored minted u v x m left mine put_failed is
              | inr (s, t, _, said) ↦ cc (ap (λ p. p.0) said)
            ]
      ]

  after_mint-Stopped :
      (args : MintGithub) (minted : MintedToken c.DateTime) (w u w' : host.World) (e : Failure)
      → Minted c host net j crypto process parsers args w minted u
      → after_mint c host net j crypto process parsers
          (stores args)
          (deposit_step c host net j crypto process parsers)
          args
          minted
          u
        ≡ (err e, w')
      → Halted args w e w'
  unfolding after_mint cache_step
  after_mint-Stopped args minted w u w' e m h =
      elim (run_next-fails (leave c host net j crypto process parsers args minted u) _ e w' h) [
        | inl failed ↦ leave-Stopped args minted w u w' e m failed
        | inr (s, v, left, rest) ↦ elim (Bool-cases args.for_recipient) [
          | inl theirs ↦ cc (ap (λ p. p.0) (rw theirs at rest))
          | inr mine ↦ cache_step-Stopped args minted w u v w' e m left mine (rw mine at rest)
        ]
      ]

  -- A `mint-github` that ends with an error stopped at one of its stages, with every stage before it
  -- done and none after it, in the world that this stage left: the key was not read or is blank;
  -- GitHub granted nothing that the request covers; the token must leave the machine, and a flag is
  -- missing or the deposit failed; or the token is for the local user and has left the machine if it
  -- must, and the project is blank or the vault's `put` failed.
  pub mint_github-Stopped :
      (args : MintGithub) (w w' : host.World) (e : Failure)
      → mint_github c host net j crypto process parsers args w ≡ (err e, w')
      → Stopped c host net j crypto process parsers args w e w'
  unfolding mint_github
  mint_github-Stopped args w w' e h =
      elim (run_next-fails (read_key c host net j crypto process parsers w) _ e w' h) [
        | inl failed ↦ read_key-Stopped args w w' e failed
        | inr (pem, v, read, rest) ↦
            let mint =
              mint_installation_token net c j parsers.token_response process.utc_now
                (app_of args pem) (grant_of args) in
            elim (run_next-fails {E = Failure} (convert_io github mint v) _ e w' rest) [
              | inl failed ↦
                  let (x, refused, is) =
                    convert_io-eq_err {F = Failure} github (mint v) e w' failed in
                  not_minted pem v x read refused is
              | inr (minted, u, made, next) ↦
                  after_mint-Stopped args minted w u w' e
                    (record {
                      pem = pem;
                      before = v;
                      key_read = read;
                      granted = convert_io-eq_ok {F = Failure} github (mint v) minted u made;
                    })
                    next
            ]
      ]
