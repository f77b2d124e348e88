-- ===== src/Vault/Miss.antt =====
-- How a lookup in the vault fails.
use custodly.Prelude.{◌≡◌, ◌⊎◌, inl, inr, err, Option-cases, Result-cases, [], ◌∷◌, ap}
use custodly.Text.{Text, lines, join}
use custodly.Entry.{SecretQuery, query_group_path}
use custodly.Chrono.{Chrono}
use custodly.Vault.Host.{Host}
use custodly.Vault.Notes.{decode_metadata}
use custodly.Vault.Store.{
  Vault, Error, run, get, read_entry, show_args, not_found, unparseable_metadata, other_lines,
}

module _ (host : Host) (c : Chrono) where
  read_entry-eq_err :
      (q : SecretQuery) (out : Text) (e : Error host)
      → read_entry host c q out ≡ err e
      → e ≡ unparseable_metadata q.project q.label
  unfolding read_entry
  read_entry-eq_err q out e h =
      elim (Option-cases (decode_metadata c (join (b'\n' ∷ []) (other_lines (lines out))))) [
        | inl none ↦ cc (rw none at h)
        | inr (m, found) ↦ cc (rw found at h)
      ]

  -- Every error of `get` names the query: `NotFound`, whatever kept the command from succeeding, a
  -- missing program and a refused keystore included, or `UnparseableMetadata`.
  pub get-eq_err :
      (v : Vault) (q : SecretQuery) (w w' : host.World) (e : Error host)
      → get host c v q w ≡ (err e, w')
      → (e ≡ not_found q.project q.label) ⊎ (e ≡ unparseable_metadata q.project q.label)
  unfolding get
  get-eq_err v q w w' e h =
      elim (Result-cases (run host v (show_args v.db_path (query_group_path q)) [] w).0) [
        | inl (out, shown) ↦ inr (read_entry-eq_err q out e (ap (λ r. r.0) (rw shown at h)))
        | inr (x, failed) ↦ inl (cc (ap (λ r. r.0) (rw failed at h)))
      ]
