-- ===== src/Cli/Credential.antt =====
-- The `git-credential` subcommand.
use custodly.Prelude.{
  ◌≡◌, ◌≢◌, refl, ap, ◌++◌, ok, err, Io, ◌>>>◌, if◌then◌else◌, not, Bool-cases, inl,
  run_next-eq_err, inr,
}
use custodly.Text.{Text, codes, eq_text}
use custodly.Text.Equality.{eq_text_iff}
use custodly.Entry.{VaultEntry, SecretQuery}
use custodly.Chrono.{Chrono}
use custodly.Vault.Host.{Host}
use custodly.Vault.Store.{Vault, get}
use custodly.Cli.Mint.{Process}
use custodly.Vault.Store

pub record GitCredential : Type 0 where
  pub action : Text
  pub project : Text
  pub label : Text
  pub vault : Text
  pub cli_path : Text
  pub keyring_name : Text

abbrev pub credential_vault : GitCredential → Vault
credential_vault args = record {
  cli_path = args.cli_path;
  db_path = args.vault;
  keyring_name = args.keyring_name;
}

abbrev pub credential_query : GitCredential → SecretQuery
credential_query args = record { project = args.project; label = args.label }

module _ (c : Chrono) (host : Host) (process : Process host.World c.DateTime) where
  open host use {World}
  open process use {read_to_string, println}

  abbrev pub print_credential : VaultEntry c.DateTime → Io World (Store.Error host) (Unit {0})
  print_credential entry w = (
    ok tt,
    println (codes "password=" ++ entry.secret) (println (codes "username=x-access-token") w),
  )

  -- Standard input is drained, and its result dropped.
  unfoldable pub git_credential : GitCredential → Io World (Store.Error host) (Unit {0})
  git_credential args w =
      let drained = (read_to_string w).1 in
      if not (eq_text args.action (codes "get"))
      then (ok tt, drained)
      else (get host c (credential_vault args) (credential_query args) >>> print_credential) drained

  -- `store`, `erase` and every action but `get` succeed, and only drain standard input.
  git_credential_other :
      (args : GitCredential) (w : World)
      → args.action ≢ codes "get"
      → git_credential args w ≡ (ok tt, (read_to_string w).1)
  unfolding git_credential
  git_credential_other args w h = elim (Bool-cases (eq_text args.action (codes "get"))) [
    | inl e ↦ absurd (h ((eq_text_iff args.action (codes "get")).0 e))
    | inr e ↦ rw e
  ]

  -- If the vault has no answer, nothing is printed: the world is as the lookup left it.
  git_credential_missing :
      (args : GitCredential) (w w' : World) (e : Store.Error host)
      → git_credential args w ≡ (err e, w')
      → get host c (credential_vault args) (credential_query args) (read_to_string w).1
        ≡ (err e, w')
  unfolding git_credential
  git_credential_missing args w w' e h = elim (Bool-cases (eq_text args.action (codes "get"))) [
    | inl g ↦
        run_next-eq_err
          (get host c (credential_vault args) (credential_query args) (read_to_string w).1)
          print_credential e w' (λ entry v. (tt, _, refl)) (rw g at h)
    | inr g ↦ cc (ap (λ p. p.0) (rw g at h))
  ]
