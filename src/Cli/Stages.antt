-- ===== src/Cli/Stages.antt =====
-- The ways in which `mint-github` ends with an error, and what has been done by then.
use custodly.Prelude.{◌≡◌, true, false, none, some, ok, err}
use custodly.Text.{Text}
use custodly.Chrono.{Chrono}
use custodly.Net.{Net}
use custodly.Seal.{Crypto}
use custodly.Entry.{empty_project, new_entry}
use custodly.Entry.Build.{IsBlank}
use custodly.Github.{GithubError, MintedToken}
use custodly.Github.Jwt.{Jwt}
use custodly.Github.Mint.{mint_installation_token}
use custodly.Vault.Host.{Host}
use custodly.Vault.Store.{VaultError, put}
use custodly.Cli.{MintGithub, ferryman_flags, app_of, grant_of}
use custodly.Cli.Live.{cached_metadata, leave}
use custodly.Cli.Mint.{
  Process, Parsers, Error, needs_ferryman_deposit, deposit_with, read_key, metadata, vault, github,
  vault_of, stdin, no_private_key, missing_flags,
}
use custodly.Tier.{as_u8}
use custodly.Vault.Store

module _ (c : Chrono) (host : Host) (net : Net host.World) (j : Jwt) (crypto : Crypto)
    (process : Process host.World c.DateTime) (parsers : Parsers c.DateTime net.RequestError) where
  abbrev Failure : Type 0
  Failure = Error c host net j crypto process parsers

  -- The key was read, and GitHub granted what it was asked for.
  pub record Minted (args : MintGithub) (w : host.World) (minted : MintedToken c.DateTime)
      (u : host.World) : Type 0 where
    pub pem : Text
    pub before : host.World
    pub key_read : read_key c host net j crypto process parsers w ≡ (ok pem, before)
    pub granted :
        mint_installation_token net c j parsers.token_response process.utc_now
          (app_of args pem)
          (grant_of args)
          before
        ≡ (ok minted, u)

  -- What the stages before the failing one have done, and what the failing one was left with.
  pub data Stopped (args : MintGithub) (w : host.World) (e : Failure) (w' : host.World)
      : Type 0 where
    unread :
        (x : process.StdinError)
        → process.read_to_string w ≡ (err x, w')
        → e ≡ stdin x
        → Stopped args w e w'
    no_key :
        (pem : Text)
        → process.read_to_string w ≡ (ok pem, w')
        → IsBlank pem
        → e ≡ no_private_key
        → Stopped args w e w'
    not_minted :
        (pem : Text) (v : host.World) (x : GithubError j.JwtError net.RequestError)
        → read_key c host net j crypto process parsers w ≡ (ok pem, v)
        → mint_installation_token net c j parsers.token_response process.utc_now
            (app_of args pem)
            (grant_of args)
            v
          ≡ (err x, w')
        → e ≡ github x
        → Stopped args w e w'
    without_flags :
        (minted : MintedToken c.DateTime)
        → Minted args w minted w'
        → needs_ferryman_deposit minted.tier args.for_recipient ≡ true
        → ferryman_flags args.ferryman_base_url args.ferryman_project args.ferryman_token ≡ none
        → e ≡ missing_flags (as_u8 minted.tier) args.for_recipient
        → Stopped args w e w'
    not_deposited :
        (minted : MintedToken c.DateTime) (u : host.World) (flags : Text × Text × Text)
        → Minted args w minted u
        → needs_ferryman_deposit minted.tier args.for_recipient ≡ true
        → ferryman_flags args.ferryman_base_url args.ferryman_project args.ferryman_token
          ≡ some flags
        → deposit_with c host net j crypto process parsers args minted flags u ≡ (err e, w')
        → Stopped args w e w'
    untraceable :
        (minted : MintedToken c.DateTime) (u v : host.World)
        → Minted args w minted u
        → leave c host net j crypto process parsers args minted u ≡ (ok tt, v)
        → args.for_recipient ≡ false
        → IsBlank args.project
        → e ≡ metadata empty_project
        → w' ≡ (process.utc_now v).1
        → Stopped args w e w'
    not_stored :
        (minted : MintedToken c.DateTime) (u v : host.World) (x : Store.Error host)
        → Minted args w minted u
        → leave c host net j crypto process parsers args minted u ≡ (ok tt, v)
        → args.for_recipient ≡ false
        → put host c
            (vault_of c host net j crypto process parsers args)
            (new_entry args.label
              (cached_metadata c host net j crypto process parsers args minted
                (process.utc_now v).0)
              minted.token)
            (process.utc_now v).1
          ≡ (err x, w')
        → e ≡ vault x
        → Stopped args w e w'
