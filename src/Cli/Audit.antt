-- ===== src/Cli/Audit.antt =====
-- Where the entries of the vault come from: what one run of `mint-github` may add to the database,
-- however it ends.
use custodly.Prelude.{
  run_next-elim, ◌≡◌, ◌⊎◌, inl, inr, ◌∙◌, sym, ap, refl, true, false, ok, Io, if◌then◌else◌,
  convert_io, convert_io-eq_ok,
}
use custodly.Text.{Text, has}
use custodly.Chrono.{Chrono}
use custodly.Net.{Net}
use custodly.Seal.{Crypto}
use custodly.Entry.{query_group_path, new_entry, VaultEntry}
use custodly.Entry.Build.{IsTraceable, new_metadata-IsTraceable}
use custodly.Github.{MintedToken, InstallationTokenResponse, from_response}
use custodly.Github.Answer.{mint_installation_token-Answered}
use custodly.Github.Gate.{IsVerified, mint_installation_token-IsVerified}
use custodly.Github.Jwt.{Jwt}
use custodly.Github.Mint.{mint_installation_token}
use custodly.Vault.Host.{Host}
use custodly.Vault.Notes.{encode_metadata}
use custodly.Vault.Store.{Vault, put}
use custodly.Vault.Database.{IsDatabase, Entries}
use custodly.Cli.{MintGithub, app_of, grant_of, Bool}
use custodly.Cli.Credential.{credential_query}
use custodly.Cli.Reuse.{helper_of}
use custodly.Cli.Keeps.{IsApart}
use custodly.Cli.Before.{read_key-Keeps, mint_installation_token-Keeps, leave-Keeps}
use custodly.Cli.Live.{cached_metadata, leave}
use custodly.Cli.Stages.{Minted}
use custodly.Cli.Stop.{cached_built}
use custodly.Cli.Mint.{
  Process, Parsers, Error, github, vault, vault_of, read_key, mint_github, after_mint, cache_step,
  deposit_step,
}

if-elim :
    {W E A : Type 0} (b : Bool) (m n : Io W E A) (w : W) (P : W → Type 0)
    → (b ≡ true → P (m w).1)
    → (b ≡ false → P (n w).1)
    → P ((if b then m else n) w).1
if-elim true m n w P h k = h refl
if-elim false m n w P h k = k refl

module _ (c : Chrono) (host : Host) (net : Net host.World) (j : Jwt) (crypto : Crypto)
    (process : Process host.World c.DateTime) (parsers : Parsers c.DateTime net.RequestError) where
  abbrev Failure : Type 0
  Failure = Error c host net j crypto process parsers

  -- The tokens that GitHub answers with are single lines.
  abbrev pub AreLines : Type 0
  AreLines =
      (body : Text) (parsed : InstallationTokenResponse c.DateTime)
      → parsers.token_response body ≡ ok parsed
      → has b'\n' parsed.token ≡ false

  -- An entry's origin: a run for the local user that was granted its token, with nothing beyond
  -- what it asked for, and deposited it first if it had to; the entry is filed under the run's
  -- project and label, with the metadata that describes the token, which is traceable.
  pub record Issued (args : MintGithub) (start : host.World) (path secret notes : Text)
      : Type 0 where
    pub minted : MintedToken c.DateTime
    pub granted : host.World
    pub left : host.World
    pub local : args.for_recipient ≡ false
    pub was_minted : Minted c host net j crypto process parsers args start minted granted
    pub verified : IsVerified (grant_of args) minted
    pub was_left : leave c host net j crypto process parsers args minted granted ≡ (ok tt, left)
    pub traceable :
        IsTraceable
          (cached_metadata c host net j crypto process parsers args minted (process.utc_now left).0)
    pub filed : path ≡ query_group_path (credential_query (helper_of args))
    pub secret_is : secret ≡ minted.token
    pub notes_are :
        notes
        ≡ encode_metadata c (
            cached_metadata c host net j crypto process parsers args minted
              (process.utc_now left).0)

  -- The entries are as they were, or a `put` was made of an entry that has an origin.
  abbrev pub Audited : (look : host.World → Entries) → MintGithub → host.World → host.World → Type 0
  Audited look args w u =
      (look u ≡ look w)
      ⊎ ((e : VaultEntry c.DateTime) × (y : host.World) × (look y ≡ look w)
          × (look u ≡ look (put host c (vault_of c host net j crypto process parsers args) e y).1)
          × (has b'\n' e.secret ≡ false)
          × Issued args w e.group_path e.secret (encode_metadata c e.metadata))

  module _ (v : Vault) (db : IsDatabase host v) (apart : IsApart net process db.stored) where
    abbrev stores : MintGithub → VaultEntry c.DateTime → Io host.World Failure (Unit {0})
    stores args entry =
        convert_io vault (put host c (vault_of c host net j crypto process parsers args) entry)

    Audited-same :
        (args : MintGithub) (w u x : host.World)
        → Audited db.stored args w u
        → db.stored x ≡ db.stored u
        → Audited db.stored args w x
    Audited-same args w u x (inl same) e = inl (e ∙ same)
    Audited-same args w u x (inr (entry, y, still, at, line, origin)) e =
        inr (entry, y, still, e ∙ at, line, origin)

    cache_step-Audited :
        (args : MintGithub) (minted : MintedToken c.DateTime) (w u x : host.World)
        → has b'\n' minted.token ≡ false
        → args.for_recipient ≡ false
        → Minted c host net j crypto process parsers args w minted u
        → IsVerified (grant_of args) minted
        → leave c host net j crypto process parsers args minted u ≡ (ok tt, x)
        → db.stored x ≡ db.stored w
        → Audited db.stored args w
            (cache_step c host net j crypto process parsers (stores args) args minted x).1
    unfolding cache_step new_entry query_group_path
    cache_step-Audited args minted w u x line mine m verified left same =
        let (now, y) = process.utc_now x in
        let still = apart.timing x ∙ same in
        let meta = cached_metadata c host net j crypto process parsers args minted now in
        let entry = new_entry args.label meta minted.token in
        elim (cached_built c host net j crypto process parsers args minted now) [
          | inl (blank, refused) ↦ rw refused (inl still)
          | inr built ↦
              let origin : Issued args w entry.group_path minted.token (encode_metadata c meta) =
                record {
                  minted = minted;
                  granted = u;
                  left = x;
                  local = mine;
                  was_minted = m;
                  verified = verified;
                  was_left = left;
                  traceable = new_metadata-IsTraceable _ _ _ _ _ _ _ built;
                  filed = refl;
                  secret_is = refl;
                  notes_are = refl;
                } in
              let added : Audited db.stored args w (stores args entry y).1 =
                inr (entry, y, still, refl, line, origin) in
              rw built (
                run_next-elim (stores args entry y) _ (Audited db.stored args w) (λ e failed. added)
                  (λ done stored. Audited-same args w _ _ added (apart.printing _ _)))
        ]

    after_mint-Audited :
        (args : MintGithub) (minted : MintedToken c.DateTime) (w u : host.World)
        → has b'\n' minted.token ≡ false
        → Minted c host net j crypto process parsers args w minted u
        → IsVerified (grant_of args) minted
        → db.stored u ≡ db.stored w
        → Audited db.stored args w
            (after_mint c host net j crypto process parsers
              (stores args)
              (deposit_step c host net j crypto process parsers)
              args
              minted
              u).1
    unfolding after_mint
    after_mint-Audited args minted w u line m verified same =
        let gone = leave c host net j crypto process parsers args minted u in
        let kept =
          leave-Keeps c host net j crypto process parsers db.stored apart args minted u ∙ same in
        run_next-elim gone _ (Audited db.stored args w) (λ e failed. inl kept)
          (λ done left.
            if-elim args.for_recipient _ _ gone.1 (Audited db.stored args w)
              (λ theirs. inl (apart.printing _ _ ∙ kept))
              (λ mine. cache_step-Audited args minted w u gone.1 line mine m verified left kept))

    -- What a run puts into the vault, however it ends, has an origin.
    pub mint_github-Audited :
        (lines : AreLines) (args : MintGithub) (w : host.World)
        → Audited db.stored args w (mint_github c host net j crypto process parsers args w).1
    unfolding mint_github from_response
    mint_github-Audited lines args w =
        let key = read_key c host net j crypto process parsers w in
        let had = read_key-Keeps c host net j crypto process parsers db.stored apart w in
        run_next-elim key _ (Audited db.stored args w) (λ e failed. inl had)
          (λ pem read.
            let mint =
              mint_installation_token net c j parsers.token_response process.utc_now
                (app_of args pem) (grant_of args) in
            let still =
              mint_installation_token-Keeps c host net j crypto process parsers db.stored apart
                (app_of args pem) (grant_of args) key.1
              ∙ had in
            run_next-elim {E = Failure} (convert_io github mint key.1) _ (Audited db.stored args w)
              (λ e failed. inl still)
              (λ minted made.
                let was =
                  convert_io-eq_ok {F = Failure} github (mint key.1) minted (mint key.1).1 made in
                let answer =
                  mint_installation_token-Answered net c j parsers.token_response process.utc_now
                    (app_of args pem) (grant_of args) minted key.1 (mint key.1).1 was in
                after_mint-Audited args minted w (mint key.1).1
                  (ap (λ m. has b'\n' m.token) (sym answer.is_token)
                    ∙ lines answer.body answer.parsed answer.reads)
                  (record { pem = pem; before = key.1; key_read = read; granted = was })
                  (mint_installation_token-IsVerified net c j parsers.token_response process.utc_now
                    (app_of args pem) (grant_of args) minted key.1 (mint key.1).1 was)
                  still))
