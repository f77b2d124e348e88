-- ===== src/Cli/Leave.antt =====
-- A successful `mint-github` from end to end.
use custodly.Prelude.{
  convert_io-eq_ok, false, ◌≡◌, ap, Bool, true, some, Result, ok, Io, if◌then◌else◌, run_next-eq_ok,
  Option-cases, inl, inr, convert_io, map_err, map_err-eq_ok, returns, ◌⊎◌, ◌≢◌, refl, sym, ◌∙◌,
  none, Option,
}
use custodly.Text.{Text, codes}
use custodly.Chrono.{Chrono}
use custodly.Net.{Net}
use custodly.Seal.{Crypto}
use custodly.Entry.{
  VaultEntry, EntryMetadata, new_entry, new_metadata, github_app_installation_token,
}
use custodly.Entry.Build.{IsTraceable, new_metadata-IsTraceable, new_metadata_fields}
use custodly.Github.{MintedToken}
use custodly.Github.Jwt.{Jwt}
use custodly.Github.Gate.{IsVerified, mint_installation_token-IsVerified}
use custodly.Github.Mint.{mint_installation_token}
use custodly.Tier.{Tier, tier0, tier1, tier2}
use custodly.Cli.Stages.{Minted}
use custodly.Cli.Mint.{
  cached_line, recipient_notice, Process, Parsers, Error, needs_ferryman_deposit, deposit_step,
  deposit_with, cache_step, after_mint, mint_github, read_key, source_description, metadata, vault,
  github, vault_of,
}
use custodly.Vault.Host.{Host}
use custodly.Vault.Store.{put}
use custodly.Cli.{MintGithub, ferryman_flags, app_of, grant_of}

module _ (c : Chrono) (host : Host) (net : Net host.World) (j : Jwt) (crypto : Crypto)
    (process : Process host.World c.DateTime) (parsers : Parsers c.DateTime net.RequestError) where
  abbrev Failure : Type 0
  Failure = Error c host net j crypto process parsers

  abbrev Step : Type 0
  Step = Io host.World Failure (Unit {0})

  -- From `left` to `done`, the token was put into the vault, with metadata that is traceable and
  -- carries the token's tier and expiry, under the project that the command names, and announced.
  pub record Cached (args : MintGithub) (minted : MintedToken c.DateTime) (left done : host.World)
      : Type 0 where
    pub stored_metadata : EntryMetadata c.DateTime
    pub after : host.World
    pub traceable : IsTraceable stored_metadata
    pub project : stored_metadata.project ≡ args.project
    pub tier : stored_metadata.tier ≡ minted.tier
    pub expiry : stored_metadata.expires_at ≡ some minted.expires_at
    pub stored :
        put host c
          (vault_of c host net j crypto process parsers args)
          (new_entry args.label stored_metadata minted.token)
          (process.utc_now left).1
        ≡ (ok tt, after)
    pub announced :
        done ≡ process.println (cached_line c host net j crypto process parsers args minted) after

  -- From `granted` to `left`, the deposit was made, with all three flags.
  pub record Deposited (args : MintGithub) (minted : MintedToken c.DateTime)
      (granted left : host.World) : Type 0 where
    pub base_url : Text
    pub ferryman_project : Text
    pub token : Text
    pub has_base_url : args.ferryman_base_url ≡ some base_url
    pub has_project : args.ferryman_project ≡ some ferryman_project
    pub has_token : args.ferryman_token ≡ some token
    pub deposited :
        deposit_with c host net j crypto process parsers args minted
          (base_url, ferryman_project, token)
          granted
        ≡ (ok tt, left)

  abbrev stores : MintGithub → VaultEntry c.DateTime → Step
  stores args entry =
      convert_io vault (put host c (vault_of c host net j crypto process parsers args) entry)

  first_taken :
      (b : Bool) (x y : Step) (w : host.World) {r : Result Failure (Unit {0}) × host.World}
      → b ≡ true
      → (if b then x else y) w ≡ r
      → x w ≡ r
  first_taken true x y w e h = h
  first_taken false x y w e h = cc

  second_taken :
      (b : Bool) (x y : Step) (w : host.World) {r : Result Failure (Unit {0}) × host.World}
      → b ≡ false
      → (if b then x else y) w ≡ r
      → y w ≡ r
  second_taken true x y w e h = cc
  second_taken false x y w e h = h

  cache_step-Cached :
      (args : MintGithub) (minted : MintedToken c.DateTime) (w w' : host.World)
      → cache_step c host net j crypto process parsers (stores args) args minted w ≡ (ok tt, w')
      → Cached args minted w w'
  unfolding cache_step
  cache_step-Cached args minted w w' h =
      let (now, v) = process.utc_now w in
      let built =
        new_metadata (codes "github") args.project
          (source_description c host net j crypto process parsers args minted)
          github_app_installation_token now (some minted.expires_at) minted.tier in
      let (m, u, made, e) = run_next-eq_ok {E = Failure} (map_err metadata built, v) _ tt w' h in
      let (x, after, stored, k) =
        run_next-eq_ok (stores args (new_entry args.label m minted.token) u) _ tt w' e in
      let b = map_err-eq_ok {F = Failure} metadata built m (ap (λ p. p.0) made) in
      let same : u ≡ v = sym (ap (λ p. p.1) made) in
      let (project, tier, expiry) = new_metadata_fields _ _ _ _ _ _ _ m b in
      let entry = new_entry args.label m minted.token in
      let putting = put host c (vault_of c host net j crypto process parsers args) entry in
      record {
        stored_metadata = m;
        after = after;
        traceable = new_metadata-IsTraceable _ _ _ _ _ _ _ b;
        project = project;
        tier = tier;
        expiry = expiry;
        stored =
            ap putting (sym same)
            ∙ convert_io-eq_ok {F = Failure} vault (putting u) tt after stored;
        announced = sym (ap (λ p. p.1) k);
      }

  flags-eq_some :
      (url project token : Option Text) (b p t : Text)
      → ferryman_flags url project token ≡ some (b, p, t)
      → (url ≡ some b) × (project ≡ some p) × (token ≡ some t)
  flags-eq_some none q r b p t h = cc h
  flags-eq_some (some u) none r b p t h = cc h
  flags-eq_some (some u) (some q) none b p t h = cc h
  flags-eq_some (some u) (some q) (some r) b p t h = (cc h, cc h, cc h)

  deposit_step-Deposited :
      (args : MintGithub) (minted : MintedToken c.DateTime) (w w' : host.World)
      → deposit_step c host net j crypto process parsers args minted w ≡ (ok tt, w')
      → Deposited args minted w w'
  unfolding deposit_step
  deposit_step-Deposited args minted w w' h =
      elim (Option-cases
        (ferryman_flags args.ferryman_base_url args.ferryman_project args.ferryman_token)) [
          | inl e ↦ cc (ap (λ p. p.0) (rw (e, deposit_step) at h))
          | inr ((b, q, t), e) ↦
              let (url, project, token) = flags-eq_some _ _ _ b q t e in
              record {
                base_url = b;
                ferryman_project = q;
                token = t;
                has_base_url = url;
                has_project = project;
                has_token = token;
                deposited = rw (e, deposit_step) at h;
              }
        ]

  -- What a run from `start` to `done` has done: which token it was granted, whether it deposited
  -- that token before anything else, and what it did last.
  pub record Handled (args : MintGithub) (start done : host.World) : Type 0 where
    pub minted : MintedToken c.DateTime
    pub granted : host.World
    pub left : host.World
    pub was_minted : Minted c host net j crypto process parsers args start minted granted
    pub verified : IsVerified (grant_of args) minted
    pub must_leave :
        (minted.tier ≡ tier2) ⊎ (args.for_recipient ≡ true) → Deposited args minted granted left
    pub may_stay : minted.tier ≢ tier2 → args.for_recipient ≡ false → left ≡ granted
    pub kept : args.for_recipient ≡ false → Cached args minted left done
    pub handed_on : args.for_recipient ≡ true → done ≡ process.println recipient_notice left

  needed_of : (t : Tier) (b : Bool) → (t ≡ tier2) ⊎ (b ≡ true) → needs_ferryman_deposit t b ≡ true
  needed_of tier0 true h = refl
  needed_of tier1 true h = refl
  needed_of tier2 b h = refl
  needed_of tier0 false (inl h) = cc h
  needed_of tier0 false (inr h) = cc h
  needed_of tier1 false (inl h) = cc h
  needed_of tier1 false (inr h) = cc h

  unneeded_of : (t : Tier) (b : Bool) → t ≢ tier2 → b ≡ false → needs_ferryman_deposit t b ≡ false
  unneeded_of tier0 b h k = k
  unneeded_of tier1 b h k = k
  unneeded_of tier2 b h k = absurd (h refl)

  after_mint-Handled :
      (args : MintGithub) (minted : MintedToken c.DateTime) (w u w' : host.World)
      → Minted c host net j crypto process parsers args w minted u
      → IsVerified (grant_of args) minted
      → after_mint c host net j crypto process parsers
          (stores args)
          (deposit_step c host net j crypto process parsers)
          args
          minted
          u
        ≡ (ok tt, w')
      → Handled args w w'
  unfolding after_mint
  after_mint-Handled args minted w u w' m verified h =
      let step : Step =
        if needs_ferryman_deposit minted.tier args.for_recipient
        then deposit_step c host net j crypto process parsers args minted
        else returns tt in
      let (x, v, first, e) = run_next-eq_ok (step u) _ tt w' h in
      record {
        minted = minted;
        granted = u;
        left = v;
        was_minted = m;
        verified = verified;
        must_leave = λ must.
            deposit_step-Deposited args minted u v
              (first_taken _ _ _ u (needed_of minted.tier args.for_recipient must) first);
        may_stay = λ low mine. sym (
            ap (λ p. p.1)
              (second_taken _ _ _ u (unneeded_of minted.tier args.for_recipient low mine) first));
        kept = λ mine.
            cache_step-Cached args minted v w' (second_taken args.for_recipient _ _ v mine e);
        handed_on = λ theirs. sym (ap (λ p. p.1) (first_taken args.for_recipient _ _ v theirs e));
      }

  -- A run of `mint-github` that succeeds has read its key, and was granted a token that the request
  -- covers. If that token is tier 2 or for someone else, the run then deposited it with Ferryman under
  -- all three flags, and else it did nothing in between. If the token is not for someone else, the run
  -- then put it into the vault, tier 2 or not, with traceable metadata that carries the command's
  -- project and the token's tier and expiry, and announced it; and if it is, the run only printed the
  -- notice.
  pub mint_github-Handled :
      (args : MintGithub) (w w' : host.World)
      → mint_github c host net j crypto process parsers args w ≡ (ok tt, w')
      → Handled args w w'
  unfolding mint_github
  mint_github-Handled args w w' h =
      let (pem, v, read, e) =
        run_next-eq_ok (read_key c host net j crypto process parsers w) _ tt w' h in
      let mint =
        mint_installation_token net c j parsers.token_response process.utc_now (app_of args pem)
          (grant_of args) in
      let (minted, u, made, k) =
        run_next-eq_ok {E = Failure} (convert_io github mint v) _ tt w' e in
      let granted = convert_io-eq_ok {F = Failure} github (mint v) minted u made in
      after_mint-Handled args minted w u w'
        (record { pem = pem; before = v; key_read = read; granted = granted })
        (mint_installation_token-IsVerified net c j parsers.token_response process.utc_now
          (app_of args pem) (grant_of args) minted v u granted)
        k
