-- ===== src/Vault/Race/Kept.antt =====
-- A password that a call has returned, whatever calls come after it.
use custodly.Prelude.{ℕ, ◌≡◌, refl, Bool-cases, inl, inr, ok, ◌==◌, subst}
use custodly.Text.{Text}
use custodly.Vault.Host.{Host, IsKeystore}
use custodly.Vault.Password.{get_or_create, service}
use custodly.Vault.Keystore.{get_or_create-Holds, get_or_create_of_Holds}
use custodly.Vault.Race.{
  Phase, opening, asking, missing, generated, finished, advance, Calls, all_opening, turn, Reach,
  start, one_turn, elsewhere,
}

module _ (host : Host) (name p : Text) (entry : host.KeyringEntry) where
  -- A call that has found nothing but `p`.
  abbrev IsKept : Phase host → Type 0
  IsKept opening = Unit
  IsKept (asking e) = e ≡ entry
  IsKept (missing e) = ⊥
  IsKept (generated e q) = ⊥
  IsKept (finished r) = r ≡ ok p

  abbrev HoldsHere : host.World → Type 0
  HoldsHere w = host.get_password entry w ≡ (ok p, w)

  advance-IsKept :
      (phase : Phase host) (w : host.World)
      → host.keyring_entry service name ≡ ok entry
      → HoldsHere w
      → IsKept phase
      → IsKept (advance host name phase w).0 × HoldsHere (advance host name phase w).1
  unfolding advance
  advance-IsKept opening w e holds k = (rw e refl, holds)
  advance-IsKept (asking a) w e holds k = rw (k, holds) (refl, holds)
  advance-IsKept (missing a) w e holds k = absurd k
  advance-IsKept (generated a q) w e holds k = absurd k
  advance-IsKept (finished r) w e holds k = (k, holds)

  Reach-IsKept :
      {w : host.World} {s : Calls host}
      → host.keyring_entry service name ≡ ok entry
      → HoldsHere w
      → Reach host name (all_opening host w) s
      → ((i : ℕ) → IsKept (s.calls i)) × HoldsHere s.world
  unfolding turn
  Reach-IsKept e holds start = (λ i. tt, holds)
  Reach-IsKept e holds (one_turn {t} r i) =
      let (kept, held) = Reach-IsKept e holds r in
      let (mine, held') = advance-IsKept (t.calls i) t.world e held (kept i) in
      (
        λ j. elim (Bool-cases (i == j)) [ inl same ↦ rw same mine | inr other ↦ rw other (kept j) ],
        held',
      )
  Reach-IsKept e holds (elsewhere w r keeps) =
      let (kept, held) = Reach-IsKept e holds r in (kept, keeps entry p held)

-- Once a call has returned a password, calls that start after it, however many and in whatever
-- order their steps and other work that leaves the keystore's passwords alone are interleaved,
-- return no other result, and a call on its own still returns it and changes nothing.
pub Reach-kept :
    (host : Host) (laws : IsKeystore host) (name p : Text) (w w' : host.World)
    → get_or_create host name w ≡ (ok p, w')
    → (s : Calls host) → Reach host name (all_opening host w') s
    → ((i : ℕ) (r : _) → s.calls i ≡ finished r → r ≡ ok p)
      × (get_or_create host name s.world ≡ (ok p, s.world))
Reach-kept host laws name p w w' h s r =
    let (entry, e, holds) = get_or_create-Holds host laws name p w w' h in
    let (kept, held) = Reach-IsKept host name p entry e holds r in
    (
      λ i r e. subst (IsKept host name p entry) e (kept i),
      get_or_create_of_Holds host name p s.world (entry, e, held),
    )
