-- ===== src/Vault/Store.antt =====
-- The `Vault` of crates/custodly-vault/src/vault.rs: `keepassxc-cli` as a child process that reads
-- passwords from its standard input.
use custodly.Prelude.{
  List, [], ◌∷◌, Result, ok, Io, returns, fails, convert_io, if◌then◌else◌, ◌>>>◌, not, ok_or,
  and_then,
}
use custodly.Text.{Text, codes, lines, join}
use custodly.Entry.{VaultEntry, new_entry, SecretQuery, query_group_path}
use custodly.Chrono.{Chrono}
use custodly.Vault.Host.{Host, Output}
use custodly.Vault.Password.{get_or_create}
use custodly.Vault.Notes.{encode_metadata, decode_metadata}

pub record Vault : Type 0 where
  pub cli_path : Text
  pub db_path : Text
  pub keyring_name : Text

pub data VaultError (IoError KeyringError : Type 0) : Type 0 where
  cli_not_found : Text → VaultError IoError KeyringError
  cli_failed : Text → VaultError IoError KeyringError
  not_found : (project label : Text) → VaultError IoError KeyringError
  unparseable_metadata : (project label : Text) → VaultError IoError KeyringError
  keyring : KeyringError → VaultError IoError KeyringError
  io : IoError → VaultError IoError KeyringError

-- The arguments of the three commands.
abbrev pub mkdir_args : Text → Text → List Text
mkdir_args db project = codes "mkdir" ∷ codes "-q" ∷ db ∷ project ∷ []

abbrev pub add_args : Text → Text → Text → List Text
add_args notes db path =
    codes "add" ∷ codes "-q" ∷ codes "-p" ∷ codes "--notes" ∷ notes ∷ db ∷ path ∷ []

abbrev pub show_args : Text → Text → List Text
show_args db path =
    codes "show"
    ∷ codes "-q"
    ∷ codes "-s"
    ∷ codes "-a"
    ∷ codes "Password"
    ∷ codes "-a"
    ∷ codes "Notes"
    ∷ db
    ∷ path
    ∷ []

-- The first line, or nothing, and the lines behind it.
abbrev pub first_line : List Text → Text
first_line [] = []
first_line (l ∷ ls) = l

abbrev pub other_lines : List Text → List Text
other_lines [] = []
other_lines (l ∷ ls) = ls

module _ (host : Host) where
  open host use {
    World, IoError, KeyringError, Child, exists, spawn, write_line, wait_with_output,
    from_utf8_lossy,
  }

  abbrev pub Error : Type 0
  Error = VaultError IoError KeyringError

  unfoldable pub password : Vault → Io World Error Text
  password v = convert_io keyring (get_or_create host v.keyring_name)

  unfoldable pub write_lines : Child → List Text → Io World Error (Unit {0})
  write_lines child [] = returns tt
  write_lines child (line ∷ rest) =
      convert_io io (write_line child line) >>> λ _. write_lines child rest

  -- The exit status decides which stream is returned.
  unfoldable pub collect_output : Output → Io World Error Text
  collect_output output =
      if output.success
      then returns (from_utf8_lossy output.stdout)
      else fails (cli_failed (from_utf8_lossy output.stderr))

  -- What `run` does once the child has been spawned.
  unfoldable pub feed : Vault → List Text → Child → Io World Error Text
  feed v extra_stdin child = password v >>> λ pw. convert_io io (write_line child pw) >>> λ _.
      write_lines child extra_stdin >>> λ _.
      convert_io io (wait_with_output child) >>> collect_output

  unfoldable pub run : Vault → List Text → List Text → Io World Error Text
  run v args extra_stdin w =
      if not (exists v.cli_path w)
      then fails (cli_not_found v.cli_path) w
      else (convert_io io (spawn v.cli_path args) >>> feed v extra_stdin) w

  -- The result of `mkdir` is dropped.
  unfoldable pub ensure_group : Vault → Text → Io World Error (Unit {0})
  ensure_group v project w = (ok tt, (run v (mkdir_args v.db_path project) [] w).1)

  -- `map_err(|_| NotFound { .. })`.
  abbrev not_found_error : SecretQuery → Error → Error
  not_found_error q _ = not_found q.project q.label

  module _ (c : Chrono) where
    unfoldable pub put : Vault → VaultEntry c.DateTime → Io World Error (Unit {0})
    put v entry = ensure_group v entry.metadata.project >>> λ _.
        run v (add_args (encode_metadata c entry.metadata) v.db_path entry.group_path)
          (entry.secret ∷ entry.secret ∷ [])
        >>> λ _. returns tt

    -- What `get` makes of the printed text.
    unfoldable pub read_entry : SecretQuery → Text → Result Error (VaultEntry c.DateTime)
    read_entry q out =
        let ls = lines out in
        and_then
          (ok_or (unparseable_metadata q.project q.label)
            (decode_metadata c (join (b'\n' ∷ []) (other_lines ls))))
          (λ metadata. ok (new_entry q.label metadata (first_line ls)))

    unfoldable pub get : Vault → SecretQuery → Io World Error (VaultEntry c.DateTime)
    get v q =
        convert_io (not_found_error q) (run v (show_args v.db_path (query_group_path q)) [])
        >>> λ out w. (read_entry q out, w)
