-- ===== src/Vault/Outcome.antt =====
-- What the vault's calls leave in the database, however they end.
use custodly.Prelude.{
  run_next-world, ◌≡◌, ◌⊎◌, inl, inr, ◌∙◌, ap, ok, [], ◌∷◌, Result, convert_io, some, Bool-cases,
  false,
}
use custodly.Text.{Text, has, eq_text}
use custodly.Chrono.{Chrono}
use custodly.Entry.{VaultEntry, SecretQuery, query_group_path}
use custodly.Vault.Host.{Host}
use custodly.Vault.Notes.{encode_metadata}
use custodly.Vault.Store.{
  Vault, put, get, run, ensure_group, mkdir_args, add_args, show_args, read_entry, not_found,
}
use custodly.Vault.Database.{IsDatabase, update, IsAddOnly}
use custodly.Vault.Child.{run-Ran}
use custodly.Vault.Commands.{AddedBy, made, unmade, lost, add-AddedBy, mkdir-stored, show-stored}
use custodly.Vault.Once.{put-Failed}
use custodly.Text.Equality.{eq_text_iff}
use custodly.Vault.Store

module _ (host : Host) (v : Vault) (db : IsDatabase host v) where
  AddedBy-cases :
      (path secret notes : Text) (w : host.World) (r : Result (Store.Error host) Text × host.World)
      → AddedBy host v db path secret notes w r
      → (db.stored r.1 ≡ db.stored w) ⊎ (db.stored r.1 ≡ update path (secret, notes) (db.stored w))
  AddedBy-cases path secret notes w _ (made o u e) = inr e
  AddedBy-cases path secret notes w _ (unmade x u e) = inl e
  AddedBy-cases path secret notes w _ (lost x u e) = inr e

  -- A `put` has changed nothing, or made its entry.
  pub put-cases :
      (c : Chrono) (e : VaultEntry c.DateTime) (w : host.World)
      → has b'\n' e.secret ≡ false
      → let after = db.stored (put host c v e w).1 in
        (after ≡ db.stored w)
        ⊎ (after ≡ update e.group_path (e.secret, encode_metadata c e.metadata) (db.stored w))
  unfolding put ensure_group
  put-cases c e w line =
      let u = (run host v (mkdir_args v.db_path e.metadata.project) [] w).1 in
      let still =
        mkdir-stored host v db e.metadata.project w _
          (run-Ran host v db (mkdir_args v.db_path e.metadata.project) [] w tt) in
      let notes = encode_metadata c e.metadata in
      let lines = e.secret ∷ e.secret ∷ [] in
      let add = run host v (add_args notes v.db_path e.group_path) lines u in
      let at = ap db.stored (run_next-world {B = Unit {0}} add (λ _. ok tt)) in
      elim (AddedBy-cases e.group_path e.secret notes u add (
        add-AddedBy host v db e.group_path e.secret notes u add
          (run-Ran host v db (add_args notes v.db_path e.group_path) lines u (line, (line, tt))))) [
            | inl same ↦ inl (at ∙ same ∙ still)
            | inr new ↦ inr (at ∙ new ∙ ap (update e.group_path (e.secret, notes)) still)
          ]

  -- A `put` leaves what is stored at a path, if `add` makes entries and does not change them.
  pub put-keeps :
      (once : IsAddOnly host v db) (c : Chrono) (e : VaultEntry c.DateTime) (w : host.World)
      (path : Text) (old : Text × Text)
      → has b'\n' e.secret ≡ false
      → db.stored w path ≡ some old
      → db.stored (put host c v e w).1 path ≡ some old
  put-keeps once c e w path old line h = elim (Bool-cases (eq_text e.group_path path)) [
    | inl this ↦
        let at = ap (db.stored w) ((eq_text_iff e.group_path path).0 this) ∙ h in
        ap (λ f. f path) ((put-Failed host v db once c e old w line at).stored) ∙ h
    | inr other ↦ elim (put-cases c e w line) [
      | inl same ↦ ap (λ f. f path) same ∙ h
      | inr new ↦ ap (λ f. f path) new ∙ rw other h
    ]
  ]

  -- A `get` changes nothing.
  pub get-same :
      (c : Chrono) (q : SecretQuery) (w : host.World) → db.stored (get host c v q w).1 ≡ db.stored w
  unfolding get
  get-same c q w =
      let path = query_group_path q in
      let show = run host v (show_args v.db_path path) [] in
      let failed : Store.Error host → Store.Error host = λ x. not_found q.project q.label in
      ap db.stored (run_next-world (convert_io failed show w) (read_entry host c q))
      ∙ show-stored host v db path w (show w) (run-Ran host v db (show_args v.db_path path) [] w tt)
