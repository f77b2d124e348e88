-- ===== src/Vault/Race/Alone.antt =====
-- A call that nothing interrupts.
use custodly.Prelude.{
  ◌≡◌, refl, Result, ok, err, inl, inr, Bool-cases, Result-cases, returns, run_next,
}
use custodly.Text.{Text}
use custodly.Vault.Host.{Host}
use custodly.Vault.Password.{get_or_create, existing_or, create, generate, service}
use custodly.Vault.Race.{Phase, opening, finished, asked, stored, advance, advance_by}

module _ (host : Host) (name : Text) where
  abbrev Ended : Result host.KeyringError Text × host.World → Phase host × host.World
  Ended (r, w) = (finished r, w)

  stored_alone :
      (p : Text) (r : Result host.KeyringError (Unit {0}) × host.World)
      → (stored host p r.0, r.1) ≡ Ended (run_next r (λ _. returns p))
  stored_alone p (ok u, w) = refl
  stored_alone p (err e, w) = refl

  asked_alone :
      (entry : host.KeyringEntry) (r : Result host.KeyringError Text × host.World)
      → advance_by host name 2 (asked host entry r.0, r.1) ≡ Ended (existing_or host entry r)
  unfolding advance_by advance existing_or create
  asked_alone entry (ok p, w) = refl
  asked_alone entry (err e, w) = elim (Bool-cases (host.is_no_entry e)) [
    | inl none ↦ rw none (
        stored_alone (generate host w).0
          (host.set_password entry (generate host w).0 (generate host w).1))
    | inr other ↦ rw other
  ]

  -- Every call ends after at most four steps, whatever the keystore answers, and if nothing else
  -- happens between them it ends with the result and the world of `get_or_create`.
  advance_by-get_or_create :
      (w : host.World)
      → advance_by host name 4 (opening, w)
        ≡ (finished (get_or_create host name w).0, (get_or_create host name w).1)
  unfolding advance_by advance get_or_create
  advance_by-get_or_create w = elim (Result-cases (host.keyring_entry service name)) [
    | inl (entry, e) ↦ rw (e, get_or_create) (asked_alone entry (host.get_password entry w))
    | inr (x, e) ↦ rw (e, get_or_create)
  ]
