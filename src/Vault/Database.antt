-- ===== src/Vault/Database.antt =====
-- What `keepassxc-cli` does with a database: documented behaviour, stated by the entries that a world
-- holds, the arguments that a child was started with, and the lines that were typed into it.
use custodly.Prelude.{
  ◌≡◌, ◌⊎◌, true, false, List, [], ◌∷◌, ◌++◌, Option, some, Result, ok, err, if◌then◌else◌, ℕ, ◌<◌,
}
use custodly.Text.{Text, has, eq_text, codes}
use custodly.Vault.Host.{Host, Output}
use custodly.Vault.Store.{Vault}

-- The three commands, as they are typed: `mkdir -q <database> <group>`,
-- `add -q -p --notes <notes> <database> <path>` and
-- `show -q -s -a Password -a Notes <database> <path>`.
abbrev mkdir_command : Text → Text → List Text
mkdir_command database group = codes "mkdir" ∷ codes "-q" ∷ database ∷ group ∷ []

abbrev pub add_command : Text → Text → Text → List Text
add_command notes database path =
    codes "add" ∷ codes "-q" ∷ codes "-p" ∷ codes "--notes" ∷ notes ∷ database ∷ path ∷ []

abbrev pub show_command : Text → Text → List Text
show_command database path =
    codes "show"
    ∷ codes "-q"
    ∷ codes "-s"
    ∷ codes "-a"
    ∷ codes "Password"
    ∷ codes "-a"
    ∷ codes "Notes"
    ∷ database
    ∷ path
    ∷ []

-- A secret and its notes, under each path.
abbrev pub Entries : Type 0
Entries = Text → Option (Text × Text)

abbrev pub update {ℓ} : {A : Type ℓ} → Text → A → (Text → Option A) → Text → Option A
update path e entries p = if eq_text path p then some e else entries p

-- What an `add` leaves: the new entry if it exits with success, nothing new if it exits with
-- failure, and either if its output could not be awaited.
abbrev pub Added : {IoError : Type 0} → Result IoError Output → Entries → Entries → Entries → Type 0
Added (ok output) before new after = after ≡ (if output.success then new else before)
Added (err e) before new after = (after ≡ before) ⊎ (after ≡ new)

-- What a `show` that exits with success prints: the secret and the notes of an entry.
pub record Shown (host : Host) (output : Output) (found : Option (Text × Text)) : Type 0 where
  pub secret : Text
  pub notes : Text
  pub found_is : found ≡ some (secret, notes)
  pub printed : host.from_utf8_lossy output.stdout ≡ secret ++ (b'\n' ∷ (notes ++ (b'\n' ∷ [])))

pub record IsDatabase (host : Host) (v : Vault) : Type 1 where
  pub stored : host.World → Entries
  pub arguments : host.Child → List Text
  pub typed : host.Child → host.World → List Text
  -- Starting a child and writing to it leave the entries alone, and so does the keystore.
  pub stored-spawn :
      (args : List Text) (w : host.World) → stored (host.spawn v.cli_path args w).1 ≡ stored w
  pub spawned :
      (args : List Text) (child : host.Child) (w w' : host.World)
      → host.spawn v.cli_path args w ≡ (ok child, w')
      → (arguments child ≡ args) × (typed child w' ≡ [])
  pub stored-write_line :
      (child : host.Child) (line : Text) (w : host.World)
      → stored (host.write_line child line w).1 ≡ stored w
  pub written :
      (child : host.Child) (line : Text) (w w' : host.World)
      → has b'\n' line ≡ false
      → host.write_line child line w ≡ (ok tt, w')
      → typed child w' ≡ typed child w ++ (line ∷ [])
  pub stored-get_password :
      (e : host.KeyringEntry) (w : host.World) → stored (host.get_password e w).1 ≡ stored w
  pub typed-get_password :
      (child : host.Child) (e : host.KeyringEntry) (w : host.World)
      → typed child (host.get_password e w).1 ≡ typed child w
  pub stored-set_password :
      (e : host.KeyringEntry) (p : Text) (w : host.World)
      → stored (host.set_password e p w).1 ≡ stored w
  pub typed-set_password :
      (child : host.Child) (e : host.KeyringEntry) (p : Text) (w : host.World)
      → typed child (host.set_password e p w).1 ≡ typed child w
  pub stored-random_range :
      (n : ℕ) (h : 0 < n) (w : host.World) → stored (host.random_range n h w).1 ≡ stored w
  pub typed-random_range :
      (child : host.Child) (n : ℕ) (h : 0 < n) (w : host.World)
      → typed child (host.random_range n h w).1 ≡ typed child w
  -- The keystore's password is one line, as a prompt reads it.
  pub one_line :
      (e : host.KeyringEntry) (p : Text) (w w' : host.World)
      → host.get_password e w ≡ (ok p, w')
      → has b'\n' p ≡ false
  -- The three commands.
  pub stored-mkdir :
      (child : host.Child) (project : Text) (w : host.World)
      → arguments child ≡ mkdir_command v.db_path project
      → stored (host.wait_with_output child w).1 ≡ stored w
  pub stored-show :
      (child : host.Child) (path : Text) (w : host.World)
      → arguments child ≡ show_command v.db_path path
      → stored (host.wait_with_output child w).1 ≡ stored w
  pub shown :
      (child : host.Child) (path : Text) (output : Output) (w w' : host.World)
      → arguments child ≡ show_command v.db_path path
      → host.wait_with_output child w ≡ (ok output, w')
      → output.success ≡ true
      → Shown host output (stored w path)
  pub added :
      (child : host.Child) (path notes password secret : Text) (w : host.World)
      → arguments child ≡ add_command notes v.db_path path
      → typed child w ≡ password ∷ secret ∷ secret ∷ []
      → Added
          (host.wait_with_output child w).0
          (stored w)
          (update path (secret, notes) (stored w))
          (stored (host.wait_with_output child w).1)

-- An output that is not one of success.
abbrev pub Refused : {IoError : Type 0} → Result IoError Output → Type 0
Refused (ok output) = output.success ≡ false
Refused (err e) = Unit

-- `add` makes entries and does not change them: at a path that has an entry it fails.
pub record IsAddOnly (host : Host) (v : Vault) (db : IsDatabase host v) : Type 0 where
  pub refuses :
      (child : host.Child) (path notes : Text) (old : Text × Text) (w : host.World)
      → db.arguments child ≡ add_command notes v.db_path path
      → db.stored w path ≡ some old
      → Refused (host.wait_with_output child w).0
        × (db.stored (host.wait_with_output child w).1 ≡ db.stored w)
