-- ===== src/Vault/Once.antt =====
-- A `put` where there is an entry already.
use custodly.Prelude.{
  ◌≡◌, refl, ap, ◌∙◌, false, [], ◌∷◌, some, Result, ok, err, run_next, convert_io, returns, List,
}
use custodly.Text.{Text, has}
use custodly.Chrono.{Chrono, IsRfc3339}
use custodly.Entry.{VaultEntry}
use custodly.Vault.Host.{Host, Output}
use custodly.Vault.Notes.{encode_metadata}
use custodly.Vault.Store.{
  Vault, Error, collect_output, io, run, put, ensure_group, mkdir_args, add_args,
}
use custodly.Vault.Database.{IsDatabase, IsAddOnly, Refused}
use custodly.Vault.Child.{Ran, ended, waited, run-Ran}
use custodly.Vault.Commands.{mkdir-stored}
use custodly.Vault.Kept.{put-stored}

module _ (host : Host) (v : Vault) (db : IsDatabase host v) (once : IsAddOnly host v db) where
  -- A run that failed and left the entries alone.
  pub record Failed {A : Type 0} (r : Result (Error host) A × host.World) (w : host.World)
      : Type 0 where
    pub error : Error host
    pub failed : r.0 ≡ err error
    pub stored : db.stored r.1 ≡ db.stored w

  collect-Failed :
      (r : Result host.IoError Output × host.World) (w : host.World)
      → Refused r.0
      → db.stored r.1 ≡ db.stored w
      → Failed (run_next (convert_io io (λ u. r) r.1) (collect_output host)) w
  unfolding collect_output
  collect-Failed (ok o, u) w h s = rw h (record { error = _; failed = refl; stored = s })
  collect-Failed (err x, u) w h s = record { error = io x; failed = refl; stored = s }

  add-Failed :
      (path notes : Text) (old : Text × Text) (w : host.World) (extra : List Text)
      (r : Result (Error host) Text × host.World)
      → Ran host v db (add_args notes v.db_path path) extra w r
      → db.stored w path ≡ some old
      → Failed r w
  add-Failed path notes old w extra _ (ended e u s) h = record {
    error = e;
    failed = refl;
    stored = s;
  }
  add-Failed path notes old w extra _ (waited child pw u a t s) h =
      let (refused, kept) = once.refuses child path notes old u a (ap (λ f. f path) s ∙ h) in
      collect-Failed (host.wait_with_output child u) w refused (kept ∙ s)

  next-Failed :
      (r : Result (Error host) Text × host.World) (u w : host.World)
      → Failed r u
      → db.stored u ≡ db.stored w
      → Failed (run_next r (λ _. returns tt)) w
  next-Failed (ok out, x) u w f s = cc f.failed
  next-Failed (err e, x) u w f s = record { error = e; failed = refl; stored = f.stored ∙ s }

  module _ (c : Chrono) where
    pub put-Failed :
        (e : VaultEntry c.DateTime) (old : Text × Text) (w : host.World)
        → has b'\n' e.secret ≡ false
        → db.stored w e.group_path ≡ some old
        → Failed (put host c v e w) w
    unfolding put ensure_group
    put-Failed e old w line h =
        let notes = encode_metadata c e.metadata in
        let u = (run host v (mkdir_args v.db_path e.metadata.project) [] w).1 in
        let still =
          mkdir-stored host v db e.metadata.project w _
            (run-Ran host v db (mkdir_args v.db_path e.metadata.project) [] w tt) in
        let lines = e.secret ∷ e.secret ∷ [] in
        let r = run host v (add_args notes v.db_path e.group_path) lines u in
        next-Failed r u w
          (add-Failed e.group_path notes old u lines r
            (run-Ran host v db (add_args notes v.db_path e.group_path) lines u (line, (line, tt)))
            (ap (λ f. f e.group_path) still ∙ h))
          still

    -- After a `put` that succeeded, a `put` of another entry under the same group path fails and
    -- leaves every entry as it was, whatever was done in between that left the entries alone: given
    -- that `add` fails at a path that has an entry, a stored secret cannot be replaced.
    pub put_twice :
        (laws : IsRfc3339 c) (first second : VaultEntry c.DateTime) (w w1 w2 : host.World)
        → has b'\n' first.secret ≡ false
        → has b'\n' second.secret ≡ false
        → put host c v first w ≡ (ok tt, w1)
        → db.stored w2 ≡ db.stored w1
        → second.group_path ≡ first.group_path
        → Failed (put host c v second w2) w1
    put_twice laws first second w w1 w2 line line' h s same =
        let at =
          ap (λ f. f second.group_path) s
          ∙ ap (db.stored w1) same
          ∙ put-stored host v db c laws first w w1 line h in
        let failed =
          put-Failed second (first.secret, encode_metadata c first.metadata) w2 line' at in
        record { error = failed.error; failed = failed.failed; stored = failed.stored ∙ s }
