-- ===== src/Vault/Processes/Alone.antt =====
-- A call that no other process comes between.
use custodly.Prelude.{◌∷◌, [], ◌≡◌, refl}
use custodly.Chrono.{Chrono}
use custodly.Vault.Host.{Host}
use custodly.Vault.Notes.{encode_metadata}
use custodly.Vault.Store.{Vault, run, put, ensure_group, add_args}
use custodly.Entry.{new_entry, query_group_path}
use custodly.Vault.Abstract.{Call, put_call, get_call, make_call, call_path}
use custodly.Vault.Processes.{waiting, replied, replied_put_of, advance}

-- After two turns it has been answered as `put` or `get` answers it.
pub advance-make_call :
    (host : Host) (c : Chrono) (v : Vault) (call : Call host c) (w : host.World)
    → let first = advance host c v (waiting call) w in
      advance host c v first.0 first.1
      ≡ (replied (make_call host c v call w).0, (make_call host c v call w).1)
unfolding advance make_call put ensure_group new_entry query_group_path
advance-make_call host c v (get_call q) w = refl
advance-make_call host c v (put_call label m secret) w = replied_put_of host c (
    run host v (add_args (encode_metadata c m) v.db_path (call_path host c label m))
      (secret ∷ secret ∷ []) (ensure_group host v m.project w).1)
