-- ===== src/Tests/Store.antt =====
-- The vault, its password, and the credential helper on the small machine.
use custodly.Prelude.{◌⊎◌, ◌≡◌, refl, ok, err, length, All, true}
use custodly.Text.{codes, has}
use custodly.Vault.Store.{
  unparseable_metadata, VaultError, put, get, not_found, run, feed, collect_output, password,
  write_lines, ensure_group,
}
use custodly.Vault.Miss.{get-eq_err}
use custodly.Vault.Password.{get_or_create, generate, existing_or, create, generate_chars, chars}
use custodly.Vault.Keystore.{generate_lem}
use custodly.Entry.{new_entry}
use custodly.Cli.Credential.{GitCredential, credential_vault, credential_query}
use custodly.Tests.Vault.{tick_clock, moved_key}
use custodly.Tests.Machine.{World, fresh, machine, a_vault}

abbrev after_put : World
after_put =
    (put machine tick_clock a_vault (new_entry (codes "pat") moved_key (codes "s3cret")) fresh).1

stored :
    put machine tick_clock a_vault (new_entry (codes "pat") moved_key (codes "s3cret")) fresh
    ≡ (ok tt, after_put)
unfolding put ensure_group run feed password get_or_create existing_or create generate write_lines
    collect_output
stored = refl

generate_lem_example :
    (length (generate machine fresh).0 ≡ 40)
    × All (λ c. has c chars ≡ true) (generate machine fresh).0
generate_lem_example = generate_lem machine fresh

abbrev helper : GitCredential
helper = record {
  action = codes "get";
  project = codes "redaktly";
  label = codes "pat";
  vault = codes "/db";
  cli_path = codes "/bin/kp";
  keyring_name = codes "main";
}

abbrev no_entry : VaultError (Unit {0}) (Unit {0})
no_entry = not_found (codes "redaktly") (codes "pat")

abbrev after_miss : World
after_miss = (get machine tick_clock (credential_vault helper) (credential_query helper) fresh).1

missed_entry :
    get machine tick_clock (credential_vault helper) (credential_query helper) fresh
    ≡ (err no_entry, after_miss)
unfolding get run feed password get_or_create existing_or create generate write_lines collect_output
    generate_chars
missed_entry = refl

get-eq_err_example :
    (no_entry ≡ not_found (codes "redaktly") (codes "pat"))
    ⊎ (no_entry ≡ unparseable_metadata (codes "redaktly") (codes "pat"))
get-eq_err_example =
    get-eq_err machine tick_clock (credential_vault helper) (credential_query helper) fresh
      after_miss no_entry missed_entry
