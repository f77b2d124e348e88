-- ===== src/Vault/Session.antt =====
-- What one run of `keepassxc-cli` does to the entries.
use custodly.Prelude.{
  ℕ, zero, suc, ◌≡◌, inl, inr, refl, ◌∙◌, true, false, [], ◌∷◌, Result, ok, err, Result-cases,
  Bool-cases, All, run_next, arith, length, returns,
}
use custodly.Text.{Text, has}
use custodly.Vault.Host.{Host}
use custodly.Vault.Password.{
  get_or_create, existing_or, create, generate, generate_chars, service, chars,
}
use custodly.Vault.Keystore.{generate_lem}
use custodly.Vault.Store.{Vault}
use custodly.Vault.Database.{IsDatabase}

-- A generated password is one line.
has-All : (s cs : Text) (c : ℕ) → has c cs ≡ false → All (λ d. has d cs ≡ true) s → has c s ≡ false
unfolding has
has-All [] cs c h a = refl
has-All (d ∷ s) cs c h (this, rest) = ground (arith, has-All s cs c h rest)

returned :
    {W E A B : Type 0} (r : Result E A × W) (b : B)
    → ((run_next r (λ _. returns b)).1 ≡ r.1)
      × ((p : B) → (run_next r (λ _. returns b)).0 ≡ ok p → p ≡ b)
returned (ok a, w) b = (refl, λ p h. cc)
returned (err e, w) b = (refl, λ p h. cc)

module _ (host : Host) (v : Vault) (db : IsDatabase host v) where
  -- The worlds have the same entries, and the same lines typed into each child.
  pub record Same (w u : host.World) : Type 0 where
    pub stored : db.stored u ≡ db.stored w
    pub typed : (child : host.Child) → db.typed child u ≡ db.typed child w

  Same-trans : {w u x : host.World} → Same w u → Same u x → Same w x
  Same-trans a b = record {
    stored = b.stored ∙ a.stored;
    typed = λ child. b.typed child ∙ a.typed child;
  }

  generate_chars-Same : (n : ℕ) (w : host.World) → Same w (generate_chars host n w).1
  unfolding generate_chars
  generate_chars-Same zero w = record { stored = refl; typed = λ child. refl }
  generate_chars-Same (suc n) w =
      Same-trans
        (record {
          stored = db.stored-random_range (length chars) _ w;
          typed = λ child. db.typed-random_range child (length chars) _ w;
        })
        (generate_chars-Same n _)

  generate-IsLine : (w : host.World) → has b'\n' (generate host w).0 ≡ false
  unfolding has
  generate-IsLine w = has-All (generate host w).0 chars b'\n' refl (generate_lem host w).1

  -- What a step of the keystore does: nothing but to the keystore, and a password is one line.
  pub record Opened (r : Result host.KeyringError Text × host.World) (w : host.World) : Type 0 where
    pub same : Same w r.1
    pub line : (p : Text) → r.0 ≡ ok p → has b'\n' p ≡ false

  create-Opened : (e : host.KeyringEntry) (w : host.World) → Opened (create host e w) w
  unfolding create generate
  create-Opened e w =
      let q = (generate host w).0 in
      let set = host.set_password e q (generate host w).1 in
      let (world, value) = returned set q in
      record {
        same = rw world (
            Same-trans (generate_chars-Same 40 w) (record {
              stored = db.stored-set_password e q _;
              typed = λ child. db.typed-set_password child e q _;
            }));
        line = λ p h. rw (value p h) (generate-IsLine w);
      }

  existing_or-Opened :
      (e : host.KeyringEntry) (w : host.World) (r : Result host.KeyringError Text × host.World)
      → host.get_password e w ≡ r
      → Same w r.1
      → Opened (existing_or host e r) w
  unfolding existing_or
  existing_or-Opened e w (ok p, u) h s = record {
    same = s;
    line = λ q k. rw (← (let same : p ≡ q = cc in same)) (db.one_line e p w u h);
  }
  existing_or-Opened e w (err x, u) h s = elim (Bool-cases (host.is_no_entry x)) [
    | inl missing ↦
        let made = create-Opened e u in
        rw missing (record { same = Same-trans s made.same; line = made.line })
    | inr other ↦ rw other (record { same = s; line = λ p k. cc })
  ]

  pub get_or_create-Opened : (name : Text) (w : host.World) → Opened (get_or_create host name w) w
  unfolding get_or_create
  get_or_create-Opened name w = elim (Result-cases (host.keyring_entry service name)) [
    | inl (e, found) ↦
        rw (found, get_or_create)
          (existing_or-Opened e w (host.get_password e w) refl (record {
            stored = db.stored-get_password e w;
            typed = λ child. db.typed-get_password child e w;
          }))
    | inr (x, failed) ↦
        rw (failed, get_or_create)
          (record { same = record { stored = refl; typed = λ child. refl }; line = λ p k. cc })
  ]
