-- ===== src/Cli/Reuse.antt =====
-- A token that `mint-github` cached is the one that `git-credential` prints.
use custodly.Prelude.{
  ◌≡◌, ◌∙◌, sym, ap, refl, ◌++◌, some, ok, map_err, map_err-eq_ok, convert_io, convert_io-eq_ok,
  run_next-eq_ok, Io, false, subst,
}
use custodly.Text.{Text, codes, has, trim, trim_start, trim_end, is_whitespace, eq_text}
use custodly.Text.Split.{IsLine}
use custodly.Chrono.{Chrono, IsRfc3339}
use custodly.Net.{Net}
use custodly.Seal.{Crypto}
use custodly.Entry.{
  VaultEntry, query_group_path, new_entry, new_metadata, github_app_installation_token,
}
use custodly.Entry.Build.{IsTraceable, new_metadata-IsTraceable, new_metadata-eq_ok}
use custodly.Github.{MintedToken}
use custodly.Github.Jwt.{Jwt}
use custodly.Vault.Host.{Host}
use custodly.Vault.Notes.{encode_metadata}
use custodly.Vault.Fields.{IsPlain}
use custodly.Vault.RoundTrip.{IsWritable}
use custodly.Vault.Store.{put, get}
use custodly.Vault.Database.{IsDatabase}
use custodly.Vault.Kept.{put-stored, get-stored}
use custodly.Cli.{MintGithub}
use custodly.Cli.Mint.{
  Process, Parsers, Error, metadata, vault, vault_of, cache_step, source_description, cached_line,
}
use custodly.Cli.Credential.{GitCredential, git_credential, print_credential, credential_query}
use custodly.Cli.Live.{cached_metadata}
use custodly.Vault.Store

-- The helper's arguments for what a minting command cached.
abbrev pub helper_of : MintGithub → GitCredential
helper_of args = record {
  action = codes "get";
  project = args.project;
  label = args.label;
  vault = args.vault;
  cli_path = args.cli_path;
  keyring_name = args.keyring_name;
}

module _ (c : Chrono) (laws : IsRfc3339 c) (host : Host) (net : Net host.World) (j : Jwt)
    (crypto : Crypto) (process : Process host.World c.DateTime)
    (parsers : Parsers c.DateTime net.RequestError) (args : MintGithub)
    (db : IsDatabase host (vault_of c host net j crypto process parsers args)) where
  abbrev Failure : Type 0
  Failure = Error c host net j crypto process parsers

  -- The vault's `put`, as the subcommand calls it.
  abbrev pub store : VaultEntry c.DateTime → Io host.World Failure (Unit {0})
  store entry =
      convert_io vault (put host c (vault_of c host net j crypto process parsers args) entry)

  abbrev path : Text
  path = query_group_path (credential_query (helper_of args))

  cached-stored :
      (minted : MintedToken c.DateTime) (w w' : host.World)
      → ((line : Text) (x : host.World) → db.stored (process.println line x) ≡ db.stored x)
      → has b'\n' minted.token ≡ false
      → cache_step c host net j crypto process parsers store args minted w ≡ (ok tt, w')
      → let m =
          cached_metadata c host net j crypto process parsers args minted (process.utc_now w).0 in
        IsTraceable m × (db.stored w' path ≡ some (minted.token, encode_metadata c m))
  unfolding cache_step new_entry query_group_path
  cached-stored minted w w' quiet line h =
      let (now, v) = process.utc_now w in
      let described = source_description c host net j crypto process parsers args minted in
      let built =
        new_metadata (codes "github") args.project described github_app_installation_token now
          (some minted.expires_at) minted.tier in
      let (m, u, made, e) = run_next-eq_ok {E = Failure} (map_err metadata built, v) _ tt w' h in
      let (x, after, kept, k) =
        run_next-eq_ok {E = Failure} (store (new_entry args.label m minted.token) u) _ tt w' e in
      let b = map_err-eq_ok {F = Failure} metadata built m (ap (λ p. p.0) made) in
      let same = new_metadata-eq_ok _ _ _ _ _ _ _ m b in
      let stored = put-stored host _ db c laws (new_entry args.label m minted.token) u after line (
        convert_io-eq_ok {F = Failure} vault
          (put host c (vault_of c host net j crypto process parsers args)
            (new_entry args.label m minted.token) u)
          tt after kept) in
      let said = ap (λ r. r.1) k in
      let line_of = cached_line c host net j crypto process parsers args minted in
      let filed = ap (λ n. (new_entry args.label n minted.token).group_path) same in
      subst (λ n. IsTraceable n × (db.stored w' path ≡ some (minted.token, encode_metadata c n)))
        same
        (
          new_metadata-IsTraceable _ _ _ _ _ _ _ b,
          ap (λ y. db.stored y path) (sym said)
              ∙ ap (λ f. f path) (quiet line_of after)
              ∙ ap (db.stored after) (sym filed)
              ∙ stored,
        )

  -- After a token has been cached, and whatever else was done that left the entries alone, a
  -- `git-credential get` for its project and label that succeeds prints that token last, under the
  -- user name that GitHub expects, if the token, the project and the description are plain lines.
  pub git_credential-cache_step :
      (minted : MintedToken c.DateTime) (w w' u u' : host.World)
      (printing : (line : Text) (x : host.World) → db.stored (process.println line x) ≡ db.stored x)
      (draining : (x : host.World) → db.stored (process.read_to_string x).1 ≡ db.stored x)
      → IsPlain args.project
      → IsPlain (source_description c host net j crypto process parsers args minted)
      → IsLine minted.token
      → cache_step c host net j crypto process parsers store args minted w ≡ (ok tt, w')
      → db.stored u ≡ db.stored w'
      → git_credential c host process (helper_of args) u ≡ (ok tt, u')
      → (x : host.World) × (u'
          ≡ process.println
              (codes "password=" ++ minted.token)
              (process.println (codes "username=x-access-token") x))
  unfolding git_credential eq_text has trim trim_start trim_end is_whitespace new_entry
  git_credential-cache_step minted w w' u u' printing draining project description line cached same
        h =
      let (traceable, stored) = cached-stored minted w w' printing line.0 cached in
      let m =
        cached_metadata c host net j crypto process parsers args minted (process.utc_now w).0 in
      let plain : IsPlain (codes "github") = record { one_line = refl; trimmed = refl } in
      let writable : IsWritable m = record {
        traceable = traceable;
        provider = plain;
        project = project;
        source_description = description;
        source = tt;
      } in
      let drained = (process.read_to_string u).1 in
      let q = credential_query (helper_of args) in
      let (entry, x, got, printed) =
        run_next-eq_ok {E = Store.Error host}
          (get host c (vault_of c host net j crypto process parsers args) q drained)
          (print_credential c host process) tt u' h in
      let found =
        get-stored host _ db c laws q entry minted.token m drained x writable line
          (ap (λ f. f path) (draining u ∙ same) ∙ stored) got in
      (
        x,
        sym (ap (λ r. r.1) printed)
            ∙ ap
                (λ e.
                  process.println (codes "password=" ++ e)
                    (process.println (codes "username=x-access-token") x))
                (ap (λ e. e.secret) found),
      )
