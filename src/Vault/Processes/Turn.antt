-- ===== src/Vault/Processes/Turn.antt =====
-- What one turn of a process does to the entries.
use custodly.Prelude.{refl, sym, [], ◌∷◌, subst}
use custodly.Text.{Text}
use custodly.Chrono.{Chrono, IsRfc3339}
use custodly.Entry.{EntryMetadata}
use custodly.Vault.Host.{Host}
use custodly.Vault.Notes.{encode_metadata}
use custodly.Vault.Store.{Vault, run, ensure_group, mkdir_args, add_args}
use custodly.Vault.Database.{IsDatabase}
use custodly.Vault.Child.{run-Ran}
use custodly.Vault.Commands.{add-AddedBy, mkdir-stored}
use custodly.Vault.Abstract.{Contents, Call, put_call, get_call, Reply, IsCall, Step, call_path}
use custodly.Vault.Refine.{Represents, Represents-same, Stepped, put-Stepped, get-Stepped}
use custodly.Vault.Processes.{Phase, waiting, grouped, replied, replied_put_of, advance}
use custodly.Vault.Processes.History.{IsPending}

module _ (host : Host) (c : Chrono) (laws : IsRfc3339 c) (v : Vault) (db : IsDatabase host v) where
  abbrev pub Holds : host.World → Contents host c → Type 0
  Holds = Represents host c laws v db

  -- What one turn of a process does: nothing to the entries, or the whole effect of its call.
  pub data Advanced (s : Contents host c) (call : Call host c)
      : Phase host c × host.World → Type 0 where
    silent :
        (phase : Phase host c) (w : host.World)
        → IsPending host c call phase
        → Holds w s
        → Advanced s call (phase, w)
    committed :
        (reply : Reply host c) (t : Contents host c) (w : host.World)
        → Step host c s call reply t
        → Holds w t
        → Advanced s call (replied reply, w)

  committed_of :
      (s : Contents host c) (call : Call host c) (r : Reply host c × host.World)
      → Stepped host c laws v db s call r
      → Advanced s call (replied r.0, r.1)
  committed_of s call r stepped = committed r.0 stepped.contents r.1 stepped.step stepped.holds

  waiting-Advanced :
      (s : Contents host c) (call : Call host c) (w : host.World)
      → Holds w s
      → Advanced s call (advance host c v (waiting call) w)
  unfolding advance ensure_group
  waiting-Advanced s (get_call q) w holds =
      committed_of s (get_call q) _ (get-Stepped host c laws v db s q w holds)
  waiting-Advanced s (put_call label m secret) w holds =
      let r = run host v (mkdir_args v.db_path m.project) [] w in
      silent (grouped label m secret) r.1 refl (
        Represents-same host c laws v db w r.1 s holds (
          mkdir-stored host v db m.project w r
            (run-Ran host v db (mkdir_args v.db_path m.project) [] w tt)))

  grouped-Advanced :
      (s : Contents host c) (label secret : Text) (m : EntryMetadata c.DateTime) (w : host.World)
      → Holds w s
      → IsCall host c (put_call label m secret)
      → Advanced s (put_call label m secret) (advance host c v (grouped label m secret) w)
  unfolding advance
  grouped-Advanced s label secret m w holds (iw, line) =
      let path = call_path host c label m in
      let args = add_args (encode_metadata c m) v.db_path path in
      let lines = secret ∷ secret ∷ [] in
      let r = run host v args lines w in
      rw (replied_put_of host c r) (
        committed_of s (put_call label m secret) _ (
          put-Stepped host c laws v db s label secret m w r holds iw line (
            add-AddedBy host v db path secret (encode_metadata c m) w r
              (run-Ran host v db args lines w (line.0, (line.0, tt))))))

  pub advance-Advanced :
      (s : Contents host c) (call : Call host c) (phase : Phase host c) (w : host.World)
      → Holds w s
      → IsCall host c call
      → IsPending host c call phase
      → Advanced s call (advance host c v phase w)
  unfolding advance
  advance-Advanced s call (waiting k) w holds good h =
      subst (λ x. Advanced s x (advance host c v (waiting k) w)) h (waiting-Advanced s k w holds)
  advance-Advanced s call (grouped label m secret) w holds good h =
      subst (λ x. Advanced s x (advance host c v (grouped label m secret) w)) h
        (grouped-Advanced s label secret m w holds (subst (IsCall host c) (sym h) good))
  advance-Advanced s call (replied r) w holds good h = absurd h
