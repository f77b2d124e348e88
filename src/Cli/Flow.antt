-- ===== src/Cli/Flow.antt =====
-- Where a minted credential goes: the two destinations, and when each is left alone.
use custodly.Prelude.{◌≡◌, true, false, none, err, Io}
use custodly.Chrono.{Chrono}
use custodly.Net.{Net}
use custodly.Seal.{Crypto}
use custodly.Entry.{VaultEntry}
use custodly.Github.{MintedToken}
use custodly.Github.Jwt.{Jwt}
use custodly.Vault.Host.{Host}
use custodly.Tier.{as_u8, is_tier2}
use custodly.Cli.{MintGithub, ferryman_flags}
use custodly.Cli.Mint.{
  Process, Parsers, Error, missing_flags, needs_ferryman_deposit, deposit_step, after_mint,
}

module _ (c : Chrono) (host : Host) (net : Net host.World) (j : Jwt) (crypto : Crypto)
    (process : Process host.World c.DateTime) (parsers : Parsers c.DateTime net.RequestError) where
  abbrev Step : Type 0
  Step = Io host.World (Error c host net j crypto process parsers) (Unit {0})

  -- A credential for someone else is never given to the vault: the run is the same whatever the
  -- vault's `put` does.
  after_mint_for_recipient :
      (put put' : VaultEntry c.DateTime → Step) (leave : MintGithub → MintedToken c.DateTime → Step)
      (args : MintGithub) (minted : MintedToken c.DateTime) (w : host.World)
      → args.for_recipient ≡ true
      → after_mint c host net j crypto process parsers put leave args minted w
        ≡ after_mint c host net j crypto process parsers put' leave args minted w
  unfolding after_mint
  after_mint_for_recipient put put' leave args minted w h = rw h

  -- A local credential below tier 2 never leaves the machine: the run is the same whatever the
  -- deposit does.
  after_mint_local :
      (put : VaultEntry c.DateTime → Step)
      (leave leave' : MintGithub → MintedToken c.DateTime → Step) (args : MintGithub)
      (minted : MintedToken c.DateTime) (w : host.World)
      → args.for_recipient ≡ false
      → is_tier2 minted.tier ≡ false
      → after_mint c host net j crypto process parsers put leave args minted w
        ≡ after_mint c host net j crypto process parsers put leave' args minted w
  unfolding after_mint
  after_mint_local put leave leave' args minted w h k = rw (h, k)

  -- A credential that must leave, without all three Ferryman flags, is refused with nothing done:
  -- nothing is sent, stored or printed.
  after_mint_missing :
      (put : VaultEntry c.DateTime → Step) (args : MintGithub) (minted : MintedToken c.DateTime)
      (w : host.World)
      → needs_ferryman_deposit minted.tier args.for_recipient ≡ true
      → ferryman_flags args.ferryman_base_url args.ferryman_project args.ferryman_token ≡ none
      → after_mint c host net j crypto process parsers put
          (deposit_step c host net j crypto process parsers)
          args
          minted
          w
        ≡ (err (missing_flags (as_u8 minted.tier) args.for_recipient), w)
  unfolding after_mint deposit_step
  after_mint_missing put args minted w h k = rw (h, k, deposit_step)

  -- If the deposit that a credential needs fails, the run ends with its error and its world, so the
  -- vault's `put` is not called and nothing more is printed.
  after_mint_unsent :
      (put : VaultEntry c.DateTime → Step) (leave : MintGithub → MintedToken c.DateTime → Step)
      (args : MintGithub) (minted : MintedToken c.DateTime) (w w' : host.World)
      (e : Error c host net j crypto process parsers)
      → needs_ferryman_deposit minted.tier args.for_recipient ≡ true
      → leave args minted w ≡ (err e, w')
      → after_mint c host net j crypto process parsers put leave args minted w ≡ (err e, w')
  unfolding after_mint
  after_mint_unsent put leave args minted w w' e h k = rw (h, k)
