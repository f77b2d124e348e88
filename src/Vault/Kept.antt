-- ===== src/Vault/Kept.antt =====
-- What a `put` leaves in the database, and what a `get` found there.
use custodly.Prelude.{
  ◌≡◌, ◌∙◌, sym, ap, refl, ◌∷◌, ◌++◌, [], some, ok, convert_io, convert_io-eq_ok, run_next-eq_ok,
  Result, false, ◌⊎◌, inl, inr, err, Result-cases,
}
use custodly.Text.{Text, has}
use custodly.Text.Equality.{eq_text_iff}
use custodly.Text.Split.{IsLine}
use custodly.Chrono.{Chrono, IsRfc3339}
use custodly.Entry.{EntryMetadata, VaultEntry, SecretQuery, query_group_path, new_entry}
use custodly.Vault.Host.{Host}
use custodly.Vault.Notes.{encode_metadata}
use custodly.Vault.RoundTrip.{IsWritable}
use custodly.Vault.Store.{Vault, put, get, run, not_found, add_args, show_args, read_entry}
use custodly.Vault.Database.{IsDatabase, update, show_command}
use custodly.Vault.Child.{run-Ran}
use custodly.Vault.Commands.{AddedBy, made, unmade, lost, add-AddedBy, show-ok}
use custodly.Vault.Fetch.{get_shown, put-add, read_entry_printed}
use custodly.Vault.Store

module _ (host : Host) (v : Vault) (db : IsDatabase host v) where
  AddedBy-stored :
      (path secret notes out : Text) (w : host.World)
      (r : Result (Store.Error host) Text × host.World)
      → AddedBy host v db path secret notes w r
      → r.0 ≡ ok out
      → db.stored r.1 ≡ update path (secret, notes) (db.stored w)
  AddedBy-stored path secret notes out w _ (made o u e) h = e
  AddedBy-stored path secret notes out w _ (unmade x u e) h = cc
  AddedBy-stored path secret notes out w _ (lost x u e) h = cc

  module _ (c : Chrono) (laws : IsRfc3339 c) where
    pub put-stored :
        (e : VaultEntry c.DateTime) (w w' : host.World)
        → has b'\n' e.secret ≡ false
        → put host c v e w ≡ (ok tt, w')
        → db.stored w' e.group_path ≡ some (e.secret, encode_metadata c e.metadata)
    put-stored e w w' line h =
        let notes = encode_metadata c e.metadata in
        let args = add_args notes v.db_path e.group_path in
        let lines = e.secret ∷ e.secret ∷ [] in
        let (out, before, ran) = put-add host c laws v e w w' h in
        let r = run host v args lines before in
        let added =
          add-AddedBy host v db e.group_path e.secret notes before r
            (run-Ran host v db args lines before (line, (line, tt))) in
        let stored =
          AddedBy-stored e.group_path e.secret notes out before r added (ap (λ x. x.0) ran) in
        ap (λ x. db.stored x.1 e.group_path) (sym ran)
        ∙ ap (λ f. f e.group_path) stored
        ∙ rw ((eq_text_iff e.group_path e.group_path).1 refl)

    pub get-stored :
        (q : SecretQuery) (e : VaultEntry c.DateTime) (secret : Text) (m : EntryMetadata c.DateTime)
        (w w' : host.World)
        → IsWritable m
        → IsLine secret
        → db.stored w (query_group_path q) ≡ some (secret, encode_metadata c m)
        → get host c v q w ≡ (ok e, w')
        → e ≡ new_entry q.label m secret
    unfolding get
    get-stored q e secret m w w' iw line s h =
        let path = query_group_path q in
        let show = run host v (show_args v.db_path path) [] in
        let failed : Store.Error host → Store.Error host = λ x. not_found q.project q.label in
        let (out, u, shown, read) =
          run_next-eq_ok {E = Store.Error host} (convert_io failed show w)
            (λ out x. (read_entry host c q out, x)) e w' h in
        let shown' = convert_io-eq_ok {F = Store.Error host} failed (show w) out u shown in
        let (sec, notes, at, printed) =
          show-ok host v db path out w (show w)
            (run-Ran host v db (show_args v.db_path path) [] w tt) (ap (λ r. r.0) shown') in
        let whole : out ≡ secret ++ (b'\n' ∷ (encode_metadata c m ++ (b'\n' ∷ []))) = cc printed in
        let entry = read_entry_printed host c laws q secret m iw line in
        cc (rw whole at read, entry)

    -- An entry whose `put` succeeded is fetched back whole, secret and provenance, by its own query,
    -- after whatever left the entries alone, if the secret is one line and the metadata can be written
    -- on lines; or the run of `show` failed, and `get` says `NotFound`.
    pub get-put :
        (label secret : Text) (m : EntryMetadata c.DateTime) (w w' u : host.World)
        → IsWritable m
        → IsLine secret
        → put host c v (new_entry label m secret) w ≡ (ok tt, w')
        → db.stored u ≡ db.stored w'
        → let q : SecretQuery = record { project = m.project; label = label } in
          let fetched = (get host c v q u).0 in
          (fetched ≡ ok (new_entry label m secret))
          ⊎ ((x : Store.Error host) × ((run host v
                  (show_command v.db_path (m.project ++ (b'/' ∷ label)))
                  []
                  u).0
                ≡ err x)
              × (fetched ≡ err (not_found m.project label)))
    unfolding get query_group_path new_entry
    get-put label secret m w w' u iw line h same =
        let q : SecretQuery = record { project = m.project; label = label } in
        let path = query_group_path q in
        let show = run host v (show_args v.db_path path) [] u in
        let stored = ap (λ f. f path) same ∙ put-stored (new_entry label m secret) w w' line.0 h in
        elim (Result-cases show.0) [
          | inl (out, ran) ↦
              let (sec, notes, at, printed) =
                show-ok host v db path out u show
                  (run-Ran host v db (show_args v.db_path path) [] u tt) ran in
              let whole : out ≡ secret ++ (b'\n' ∷ (encode_metadata c m ++ (b'\n' ∷ []))) =
                cc (at, stored, printed) in
              inl (
                get_shown host c laws v q u out ran
                ∙ ap (read_entry host c q) whole
                ∙ read_entry_printed host c laws q secret m iw line)
          | inr (x, failed) ↦ inr (x, failed, rw failed)
        ]
