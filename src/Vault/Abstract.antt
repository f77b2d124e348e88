-- ===== src/Vault/Abstract.antt =====
-- The vault as a map from paths to secrets with their provenance, and the steps of its calls.
use custodly.Prelude.{◌≡◌, List, [], ◌∷◌, Option, some, Result, ok, err}
use custodly.Text.{Text}
use custodly.Text.Split.{IsLine}
use custodly.Chrono.{Chrono}
use custodly.Entry.{EntryMetadata, VaultEntry, SecretQuery, query_group_path, new_entry}
use custodly.Vault.Host.{Host}
use custodly.Vault.RoundTrip.{IsWritable}
use custodly.Vault.Store.{Vault, io, not_found, put, get}
use custodly.Vault.Database.{update}
use custodly.Vault.Store

module _ (host : Host) (c : Chrono) where
  abbrev pub Contents : Type 0
  Contents = Text → Option (Text × EntryMetadata c.DateTime)

  -- A `put` of the entry that `VaultEntry::new` makes, or a `get`.
  pub data Call : Type 0 where
    put_call : (label : Text) (m : EntryMetadata c.DateTime) (secret : Text) → Call
    get_call : SecretQuery → Call

  pub data Reply : Type 0 where
    put_reply : Result (Store.Error host) (Unit {0}) → Reply
    get_reply : Result (Store.Error host) (VaultEntry c.DateTime) → Reply

  -- Metadata that can be written on lines, and a secret of one line.
  abbrev pub IsCall : Call → Type 0
  IsCall (put_call label m secret) = IsWritable m × IsLine secret
  IsCall (get_call q) = Unit

  abbrev pub call_path : Text → EntryMetadata c.DateTime → Text
  call_path label m = query_group_path (record { project = m.project; label = label })

  -- A `put` that succeeds stores its entry, and one that fails does not, unless the end of the
  -- command could not be awaited; a `get` changes nothing, and finds what is stored or `NotFound`.
  pub data Step : Contents → Call → Reply → Contents → Type 0 where
    put_done :
        (s : Contents) (label : Text) (m : EntryMetadata c.DateTime) (secret : Text)
        → Step s
            (put_call label m secret)
            (put_reply (ok tt))
            (update (call_path label m) (secret, m) s)
    put_failed :
        (s : Contents) (label : Text) (m : EntryMetadata c.DateTime) (secret : Text)
        (e : Store.Error host)
        → Step s (put_call label m secret) (put_reply (err e)) s
    put_lost :
        (s : Contents) (label : Text) (m : EntryMetadata c.DateTime) (secret : Text)
        (x : host.IoError)
        → Step s
            (put_call label m secret)
            (put_reply (err (io x)))
            (update (call_path label m) (secret, m) s)
    get_found :
        (s : Contents) (q : SecretQuery) (m : EntryMetadata c.DateTime) (secret : Text)
        → s (query_group_path q) ≡ some (secret, m)
        → Step s (get_call q) (get_reply (ok (new_entry q.label m secret))) s
    get_missed :
        (s : Contents) (q : SecretQuery)
        → Step s (get_call q) (get_reply (err (not_found q.project q.label))) s

  pub data Run : Contents → List Call → List Reply → Contents → Type 0 where
    stop : (s : Contents) → Run s [] [] s
    next :
        (s t u : Contents) (call : Call) (reply : Reply) (calls : List Call) (replies : List Reply)
        → Step s call reply t
        → Run t calls replies u
        → Run s (call ∷ calls) (reply ∷ replies) u

  module _ (v : Vault) where
    -- The calls on a vault, one after the other.
    unfoldable pub make_call : Call → host.World → Reply × host.World
    make_call (put_call label m secret) w =
        let (r, w') = put host c v (new_entry label m secret) w in (put_reply r, w')
    make_call (get_call q) w = let (r, w') = get host c v q w in (get_reply r, w')

    unfoldable pub make_calls : List Call → host.World → List Reply × host.World
    make_calls [] w = ([], w)
    make_calls (call ∷ calls) w =
        let (reply, w1) = make_call call w in
        let (replies, w2) = make_calls calls w1 in (reply ∷ replies, w2)
