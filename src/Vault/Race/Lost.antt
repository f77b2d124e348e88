-- ===== src/Vault/Race/Lost.antt =====
-- Two first calls on one vault name at the same time.
use custodly.Prelude.{ℕ, ◌≡◌, refl, List, [], ◌∷◌, ok, err, true}
use custodly.Text.{Text}
use custodly.Vault.Host.{Host, IsKeystore}
use custodly.Vault.Password.{generate, get_or_create, service}
use custodly.Vault.Keystore.{get_or_create_of_Holds}
use custodly.Vault.Race.{finished, advance, all_opening, turn, take_turns, Calls}

abbrev pub in_step : List ℕ
in_step = 0 ∷ 1 ∷ 0 ∷ 1 ∷ 0 ∷ 1 ∷ 0 ∷ 1 ∷ []

-- If two calls take turns on a keystore without an entry, and both can store what they have
-- generated, then each returns the password that it has generated, and only the second one is the
-- password that later calls get.
pub take_turns_lost :
    (host : Host) (laws : IsKeystore host) (name p q : Text) (entry : host.KeyringEntry)
    (x y : host.KeyringError) (w w1 w2 w3 w4 w5 w6 : host.World)
    → host.keyring_entry service name ≡ ok entry
    → (host.get_password entry w ≡ (err x, w1)) × (host.is_no_entry x ≡ true)
    → (host.get_password entry w1 ≡ (err y, w2)) × (host.is_no_entry y ≡ true)
    → (generate host w2 ≡ (p, w3)) × (generate host w3 ≡ (q, w4))
    → (host.set_password entry p w4 ≡ (ok tt, w5)) × (host.set_password entry q w5 ≡ (ok tt, w6))
    → let s : Calls host = take_turns host name in_step (all_opening host w) in
      (s.calls 0 ≡ finished (ok p))
      × (s.calls 1 ≡ finished (ok q))
      × (get_or_create host name s.world ≡ (ok q, s.world))
unfolding take_turns turn advance
take_turns_lost host laws name p q entry x y w w1 w2 w3 w4 w5 w6 opens ask ask' makes sets =
    let held =
      get_or_create_of_Holds host name q w6
        (entry, opens, laws.get-set_password entry q w5 w6 sets.1) in
    rw (opens, ask.0, ask.1, ask'.0, ask'.1, makes.0, makes.1, sets.0, sets.1) (refl, refl, held)
