-- ===== src/Vault/Commands.antt =====
-- What the three commands of the vault do to the entries.
use custodly.Prelude.{
  ◌≡◌, inl, inr, refl, ◌∙◌, sym, ap, true, [], ◌∷◌, ◌++◌, some, Result, ok, err, Bool-cases,
  run_next, convert_io,
}
use custodly.Text.{Text}
use custodly.Vault.Host.{Host, Output}
use custodly.Vault.Store.{Vault, Error, collect_output, io, mkdir_args, add_args, show_args}
use custodly.Vault.Database.{IsDatabase, update, Added}
use custodly.Vault.Child.{Ran, ended, waited}

module _ (host : Host) (v : Vault) (db : IsDatabase host v) where
  -- What follows the wait.
  abbrev collect : Result host.IoError Output × host.World → Result (Error host) Text × host.World
  collect r = run_next (convert_io io (λ w. r) r.1) (collect_output host)

  collect-world : (r : Result host.IoError Output × host.World) → (collect r).1 ≡ r.1
  unfolding collect_output
  collect-world (ok o, w) = elim (Bool-cases o.success) [ inl e ↦ rw e | inr e ↦ rw e ]
  collect-world (err x, w) = refl

  -- A run succeeds if the child exits with success.
  collect-eq_ok :
      (r : Result host.IoError Output × host.World) (out : Text)
      → (collect r).0 ≡ ok out
      → (o : Output) × (r.0 ≡ ok o) × (o.success ≡ true) × (out ≡ host.from_utf8_lossy o.stdout)
  unfolding collect_output
  collect-eq_ok (ok o, w) out h = elim (Bool-cases o.success) [
    | inl e ↦ (o, refl, e, cc (rw e at h))
    | inr e ↦ cc (rw e at h)
  ]
  collect-eq_ok (err x, w) out h = cc

  pub show-ok :
      (path out : Text) (w : host.World) (r : Result (Error host) Text × host.World)
      → Ran host v db (show_args v.db_path path) [] w r
      → r.0 ≡ ok out
      → (secret : Text) × (notes : Text) × (db.stored w path ≡ some (secret, notes))
        × (out ≡ secret ++ (b'\n' ∷ (notes ++ (b'\n' ∷ []))))
  show-ok path out w _ (ended e u s) h = cc
  show-ok path out w _ (waited child pw u a t s) h =
      let (o, done, success, printed) = collect-eq_ok (host.wait_with_output child u) out h in
      let found =
        db.shown child path o u (host.wait_with_output child u).1 a
          (ap (λ x. (x, (host.wait_with_output child u).1)) done) success in
      (
        found.secret,
        found.notes,
        ap (λ f. f path) (sym s) ∙ found.found_is,
        printed ∙ found.printed,
      )

  pub show-stored :
      (path : Text) (w : host.World) (r : Result (Error host) Text × host.World)
      → Ran host v db (show_args v.db_path path) [] w r
      → db.stored r.1 ≡ db.stored w
  show-stored path w _ (ended e u s) = s
  show-stored path w _ (waited child pw u a t s) =
      ap db.stored (collect-world (host.wait_with_output child u))
      ∙ db.stored-show child path u a
      ∙ s

  pub mkdir-stored :
      (project : Text) (w : host.World) (r : Result (Error host) Text × host.World)
      → Ran host v db (mkdir_args v.db_path project) [] w r
      → db.stored r.1 ≡ db.stored w
  mkdir-stored project w _ (ended e u s) = s
  mkdir-stored project w _ (waited child pw u a t s) =
      ap db.stored (collect-world (host.wait_with_output child u))
      ∙ db.stored-mkdir child project u a
      ∙ s

  -- An `add` that succeeded has made its entry, and one that failed has not, unless its end could
  -- not be awaited.
  pub data AddedBy (path secret notes : Text) (w : host.World)
      : Result (Error host) Text × host.World → Type 0 where
    made :
        (out : Text) (u : host.World)
        → db.stored u ≡ update path (secret, notes) (db.stored w)
        → AddedBy path secret notes w (ok out, u)
    unmade :
        (e : Error host) (u : host.World)
        → db.stored u ≡ db.stored w
        → AddedBy path secret notes w (err e, u)
    lost :
        (x : host.IoError) (u : host.World)
        → db.stored u ≡ update path (secret, notes) (db.stored w)
        → AddedBy path secret notes w (err (io x), u)

  collect-AddedBy :
      (path secret notes : Text) (w : host.World) (r : Result host.IoError Output × host.World)
      → Added r.0 (db.stored w) (update path (secret, notes) (db.stored w)) (db.stored r.1)
      → AddedBy path secret notes w (collect r)
  unfolding collect_output
  collect-AddedBy path secret notes w (ok o, u) h = elim (Bool-cases o.success) [
    | inl e ↦ rw e (made (host.from_utf8_lossy o.stdout) u (rw e at h))
    | inr e ↦ rw e (unmade _ u (rw e at h))
  ]
  collect-AddedBy path secret notes w (err x, u) (inl h) = unmade (io x) u h
  collect-AddedBy path secret notes w (err x, u) (inr h) = lost x u h

  pub add-AddedBy :
      (path secret notes : Text) (w : host.World) (r : Result (Error host) Text × host.World)
      → Ran host v db (add_args notes v.db_path path) (secret ∷ secret ∷ []) w r
      → AddedBy path secret notes w r
  add-AddedBy path secret notes w _ (ended e u s) = unmade e u s
  add-AddedBy path secret notes w _ (waited child pw u a t s) =
      collect-AddedBy path secret notes w (host.wait_with_output child u)
        (rw (← s) (db.added child path notes pw secret u a t))
