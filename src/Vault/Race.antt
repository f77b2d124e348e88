-- ===== src/Vault/Race.antt =====
-- `get_or_create` of crates/custodly-vault/src/password.rs one call of the keystore at a time, and
-- several processes that make the call on the same vault name, interleaved in any order.
pub mod Alone
pub mod Kept
pub mod Lost
use custodly.Prelude.{ℕ, zero, suc, ◌≡◌, List, [], ◌∷◌, Result, ok, err, if◌then◌else◌, ◌==◌}
use custodly.Text.{Text}
use custodly.Vault.Host.{Host}
use custodly.Vault.Password.{generate, service}

module _ (host : Host) where
  open host use {World, KeyringError, KeyringEntry}

  -- How far a call has got: `Entry::new`, `get_password`, `generate`, `set_password`.
  pub data Phase : Type 0 where
    opening : Phase
    asking : KeyringEntry → Phase
    missing : KeyringEntry → Phase
    generated : KeyringEntry → Text → Phase
    finished : Result KeyringError Text → Phase

  abbrev pub opened : Result KeyringError KeyringEntry → Phase
  opened (ok entry) = asking entry
  opened (err e) = finished (err e)

  -- The `match` on what the keystore has.
  abbrev pub asked : KeyringEntry → Result KeyringError Text → Phase
  asked entry (ok existing) = finished (ok existing)
  asked entry (err e) = if host.is_no_entry e then missing entry else finished (err e)

  abbrev pub stored : Text → Result KeyringError (Unit {0}) → Phase
  stored p (ok u) = finished (ok p)
  stored p (err e) = finished (err e)

  unfoldable pub advance : Text → Phase → World → Phase × World
  advance name opening w = (opened (host.keyring_entry service name), w)
  advance name (asking entry) w = let (r, w') = host.get_password entry w in (asked entry r, w')
  advance name (missing entry) w = let (p, w') = generate host w in (generated entry p, w')
  advance name (generated entry p) w = let (r, w') = host.set_password entry p w in (stored p r, w')
  advance name (finished r) w = (finished r, w)

  unfoldable pub advance_by : Text → ℕ → Phase × World → Phase × World
  advance_by name zero s = s
  advance_by name (suc n) s = advance_by name n (advance name s.0 s.1)

  -- The calls by number, and the world that they share.
  pub record Calls : Type 0 where
    pub calls : ℕ → Phase
    pub world : World

  abbrev pub all_opening : World → Calls
  all_opening w = record { calls = λ i. opening; world = w }

  abbrev pub update : (ℕ → Phase) → ℕ → Phase → ℕ → Phase
  update calls i phase j = if i == j then phase else calls j

  unfoldable pub turn : Text → ℕ → Calls → Calls
  turn name i s =
      let (phase, w) = advance name (s.calls i) s.world in
      record { calls = update s.calls i phase; world = w }

  -- The calls take their turns in a given order.
  unfoldable pub take_turns : Text → List ℕ → Calls → Calls
  take_turns name [] s = s
  take_turns name (i ∷ is) s = take_turns name is (turn name i s)

  -- What else goes on leaves every password in the keystore as it is.
  abbrev pub KeepsPasswords : World → World → Type 0
  KeepsPasswords w v =
      (entry : KeyringEntry) (p : Text)
      → host.get_password entry w ≡ (ok p, w)
      → host.get_password entry v ≡ (ok p, v)

  pub data Reach (name : Text) (s : Calls) : Calls → Type 0 where
    start : Reach name s s
    one_turn : {t : Calls} → Reach name s t → (i : ℕ) → Reach name s (turn name i t)
    elsewhere :
        {t : Calls} (w : World)
        → Reach name s t
        → KeepsPasswords t.world w
        → Reach name s (record t { world = w })
