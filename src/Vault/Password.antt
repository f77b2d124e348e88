-- ===== src/Vault/Password.antt =====
-- crates/custodly-vault/src/password.rs: the vault's own password in the keystore.
use custodly.Prelude.{
  ℕ, zero, suc, ◌<◌, List, [], ◌∷◌, length, arith, Result, ok, err, Io, returns, if◌then◌else◌,
  run_next,
}
use custodly.Text.{Text, codes}
use custodly.Vault.Host.{Host}

abbrev pub service : Text
service = codes "custodly"

abbrev pub generated_len : ℕ
generated_len = 40

abbrev pub chars : Text
chars = codes "ABCDEFGHIJKLMNOPQRSTUVWXYZabcdefghijklmnopqrstuvwxyz0123456789!@#$%^&*-_=+"

-- `xs[i]`, in bounds.
unfoldable pub nth {ℓ} : {A : Type ℓ} (xs : List A) (i : ℕ) → i < length xs → A
nth [] i h = elim h [ ]
nth (x ∷ xs) zero h = x
nth (x ∷ xs) (suc i) h = nth xs i (omega arith)

module _ (host : Host) where
  open host use {
    World, KeyringError, KeyringEntry, keyring_entry, get_password, set_password, is_no_entry,
    random_range,
  }

  unfoldable pub generate_chars : ℕ → World → Text × World
  generate_chars zero w = ([], w)
  generate_chars (suc n) w =
      let (pick, w') = random_range (length chars) (omega arith) w in
      let (rest, w'') = generate_chars n w' in (nth chars pick.0 pick.1 ∷ rest, w'')

  unfoldable pub generate : World → Text × World
  generate = generate_chars generated_len

  -- The arm for `NoEntry`.
  unfoldable pub create : KeyringEntry → Io World KeyringError Text
  create entry w =
      let (generated, w') = generate w in
      run_next (set_password entry generated w') (λ _. returns generated)

  -- The `match` on what the keystore has.
  unfoldable pub existing_or :
      KeyringEntry → Result KeyringError Text × World → Result KeyringError Text × World
  existing_or entry (ok existing, w) = (ok existing, w)
  existing_or entry (err e, w) = if is_no_entry e then create entry w else (err e, w)

  unfoldable pub get_or_create : Text → Io World KeyringError Text
  get_or_create vault_name w = elim (keyring_entry service vault_name) [
    | ok entry ↦ existing_or entry (get_password entry w)
    | err e ↦ (err e, w)
  ]
