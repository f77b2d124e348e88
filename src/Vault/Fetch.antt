-- ===== src/Vault/Fetch.antt =====
-- What `put` runs, and what `get` makes of the printed text.
use custodly.Prelude.{
  ◌≡◌, ◌∙◌, sym, ap, [], ◌∷◌, ◌++◌, ok, append_assoc, run_next-eq_ok, returns, returns_eq,
}
use custodly.Text.{Text, lines, join}
use custodly.Text.Split.{IsLine, lines-closed}
use custodly.Entry.{EntryMetadata, VaultEntry, new_entry, SecretQuery, query_group_path}
use custodly.Chrono.{Chrono, IsRfc3339}
use custodly.Vault.Host.{Host}
use custodly.Vault.Notes.{encode_metadata}
use custodly.Vault.Fields.{header}
use custodly.Vault.RoundTrip.{
  IsWritable, middle, last, encode_metadata-join, notes-IsLine, decode_metadata-encode_metadata,
}
use custodly.Vault.Store.{Vault, run, add_args, show_args, put, get, read_entry, ensure_group}

module _ (host : Host) (c : Chrono) (laws : IsRfc3339 c) where
  printed_lines :
      (m : EntryMetadata c.DateTime) (secret : Text)
      → IsWritable m
      → IsLine secret
      → lines (secret ++ (b'\n' ∷ (encode_metadata c m ++ (b'\n' ∷ []))))
        ≡ secret ∷ header ∷ middle c laws m ++ (last c laws m ∷ [])
  unfolding join
  printed_lines m secret w s = rw (encode_metadata-join c laws m) (
      ap lines (sym (append_assoc secret _ (b'\n' ∷ [])))
      ∙ lines-closed secret (header ∷ middle c laws m ++ (last c laws m ∷ []))
          (s, notes-IsLine c laws m w))

  -- The printed text reads as an entry under the label that was asked for.
  pub read_entry_printed :
      (q : SecretQuery) (secret : Text) (m : EntryMetadata c.DateTime)
      → IsWritable m
      → IsLine secret
      → read_entry host c q (secret ++ (b'\n' ∷ (encode_metadata c m ++ (b'\n' ∷ []))))
        ≡ ok (new_entry q.label m secret)
  unfolding read_entry
  read_entry_printed q secret m w s = rw (
    printed_lines m secret w s,
    ← encode_metadata-join c laws m,
    decode_metadata-encode_metadata c laws m w,
  )

  pub put-add :
      (v : Vault) (e : VaultEntry c.DateTime) (w w' : host.World)
      → put host c v e w ≡ (ok tt, w')
      → (out : Text) × (before : host.World) × (run host v
            (add_args (encode_metadata c e.metadata) v.db_path e.group_path)
            (e.secret ∷ e.secret ∷ [])
            before
          ≡ (ok out, w'))
  unfolding put ensure_group
  put-add v e w w' h =
      let start = (ensure_group host v e.metadata.project w).1 in
      let (out, after, added, done) =
        run_next-eq_ok
          (run host v (add_args (encode_metadata c e.metadata) v.db_path e.group_path)
            (e.secret ∷ e.secret ∷ []) start)
          (λ _. returns tt) tt w' h in
      (out, start, added ∙ rw (returns_eq done).1)

  pub get_shown :
      (v : Vault) (q : SecretQuery) (w : host.World) (out : Text)
      → (run host v (show_args v.db_path (query_group_path q)) [] w).0 ≡ ok out
      → (get host c v q w).0 ≡ read_entry host c q out
  unfolding get
  get_shown v q w out h = rw h
