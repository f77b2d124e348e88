-- ===== src/Vault/Host.antt =====
-- What crates/custodly-vault uses of the operating system, the `keyring` crate and `rand`, none of
-- which is in the repository: operations on an unknown world. Paths are texts.
use custodly.Prelude.{ℕ, ◌<◌, ◌≡◌, Bool, List, Result, ok}
use custodly.Text.{Text}

-- `std::process::Output`.
pub record Output : Type 0 where
  pub success : Bool
  pub stdout : List ℕ
  pub stderr : List ℕ

pub record Host : Type 1 where
  pub World : Type 0
  pub IoError : Type 0
  pub KeyringError : Type 0
  pub KeyringEntry : Type 0
  pub Child : Type 0
  pub exists : Text → World → Bool
  -- `Command::new(path).args(args)` with piped streams, `spawn()`.
  pub spawn : Text → List Text → World → Result IoError Child × World
  -- `writeln!(stdin, "{line}")`.
  pub write_line : Child → Text → World → Result IoError (Unit {0}) × World
  pub wait_with_output : Child → World → Result IoError Output × World
  -- `String::from_utf8_lossy`.
  pub from_utf8_lossy : List ℕ → Text
  -- `keyring::Entry::new`.
  pub keyring_entry : Text → Text → Result KeyringError KeyringEntry
  pub get_password : KeyringEntry → World → Result KeyringError Text × World
  pub set_password : KeyringEntry → Text → World → Result KeyringError (Unit {0}) × World
  -- The test for `keyring::Error::NoEntry`.
  pub is_no_entry : KeyringError → Bool
  -- `random_range(0..n)`.
  pub random_range : (n : ℕ) → 0 < n → World → ((i : ℕ) × (i < n)) × World

-- A keystore gives back the password that was stored last, and reading does not change it.
pub record IsKeystore (host : Host) : Type 0 where
  pub get-set_password :
      (e : host.KeyringEntry) (p : Text) (w w' : host.World)
      → host.set_password e p w ≡ (ok tt, w')
      → host.get_password e w' ≡ (ok p, w')
  pub get-get_password :
      (e : host.KeyringEntry) (p : Text) (w w' : host.World)
      → host.get_password e w ≡ (ok p, w')
      → host.get_password e w' ≡ (ok p, w')
