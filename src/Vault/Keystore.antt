-- ===== src/Vault/Keystore.antt =====
-- The generated password, and that a vault keeps the password that it was first given.
use custodly.Prelude.{
  ℕ, zero, suc, ◌<◌, ◌≡◌, refl, ap, [], ◌∷◌, length, arith, Result, ok, err, All, inl, inr,
  Bool-cases, Result-cases, true, returns, run_next-eq_ok, returns_eq,
}
use custodly.Text.{Text, has}
use custodly.Vault.Host.{Host, IsKeystore}
use custodly.Vault.Password.{
  chars, nth, generate_chars, generate, create, existing_or, get_or_create, service,
}

has-nth : (xs : Text) (i : ℕ) (h : i < length xs) → has (nth xs i h) xs ≡ true
unfolding nth has
has-nth [] i h = elim h [ ]
has-nth (x ∷ xs) zero h = ground arith
has-nth (x ∷ xs) (suc i) h = ground (arith, has-nth xs i (omega arith))

module _ (host : Host) where
  generate_chars_lem :
      (n : ℕ) (w : host.World)
      → (length (generate_chars host n w).0 ≡ n)
        × All (λ c. has c chars ≡ true) (generate_chars host n w).0
  unfolding generate_chars
  generate_chars_lem zero w = (refl, tt)
  generate_chars_lem (suc n) w =
      let (pick, w') = host.random_range (length chars) (omega arith) w in
      let (len, all) = generate_chars_lem n w' in (ap suc len, (has-nth chars pick.0 pick.1, all))

  -- A generated password has 40 characters, all of them from the fixed alphabet.
  pub generate_lem :
      (w : host.World)
      → (length (generate host w).0 ≡ 40) × All (λ c. has c chars ≡ true) (generate host w).0
  unfolding generate
  generate_lem w = generate_chars_lem 40 w

  create-get_password :
      (laws : IsKeystore host) (entry : host.KeyringEntry) (p : Text) (w w' : host.World)
      → create host entry w ≡ (ok p, w')
      → host.get_password entry w' ≡ (ok p, w')
  unfolding create
  create-get_password laws entry p w w' h =
      let q = (generate host w).0 in
      let (u, v, stored, e) =
        run_next-eq_ok (host.set_password entry q (generate host w).1) (λ _. returns q) p w' h in
      let (same, world) = returns_eq e in
      rw (← same, ← world) (laws.get-set_password entry q (generate host w).1 v stored)

  existing_or-get_password :
      (laws : IsKeystore host) (entry : host.KeyringEntry) (p : Text) (w w' : host.World)
      (r : Result host.KeyringError Text × host.World)
      → host.get_password entry w ≡ r
      → existing_or host entry r ≡ (ok p, w')
      → host.get_password entry w' ≡ (ok p, w')
  unfolding existing_or
  existing_or-get_password laws entry p w w' (ok q, v) e k =
      let (same, world) = returns_eq k in rw (← same, ← world) (laws.get-get_password entry q w v e)
  existing_or-get_password laws entry p w w' (err x, v) e k =
      elim (Bool-cases (host.is_no_entry x)) [
        | inl missing ↦ create-get_password laws entry p v w' (rw missing at k)
        | inr other ↦ cc (rw other at k)
      ]

  -- What the keystore holds for a vault once a call has returned it.
  abbrev pub Holds : (name : Text) (p : Text) → host.World → Type 0
  Holds name p w =
      (entry : host.KeyringEntry) × (host.keyring_entry service name ≡ ok entry)
      × (host.get_password entry w ≡ (ok p, w))

  pub get_or_create-Holds :
      (laws : IsKeystore host) (name : Text) (p : Text) (w w' : host.World)
      → get_or_create host name w ≡ (ok p, w')
      → Holds name p w'
  unfolding get_or_create
  get_or_create-Holds laws name p w w' h = elim (Result-cases (host.keyring_entry service name)) [
    | inl (entry, e) ↦ (
      entry,
      e,
      existing_or-get_password laws entry p w w' (host.get_password entry w) refl
          (rw (e, get_or_create) at h),
    )
    | inr (x, e) ↦ cc (rw (e, get_or_create) at h)
  ]

  pub get_or_create_of_Holds :
      (name : Text) (p : Text) (w : host.World)
      → Holds name p w
      → get_or_create host name w ≡ (ok p, w)
  unfolding get_or_create existing_or
  get_or_create_of_Holds name p w (entry, e, holds) = rw (e, get_or_create, holds)

  -- Every later call returns the password that a successful call returned.
  get_or_create_twice :
      (laws : IsKeystore host) (name : Text) (p : Text) (w w' : host.World)
      → get_or_create host name w ≡ (ok p, w')
      → get_or_create host name w' ≡ (ok p, w')
  get_or_create_twice laws name p w w' h =
      get_or_create_of_Holds name p w' (get_or_create-Holds laws name p w w' h)
