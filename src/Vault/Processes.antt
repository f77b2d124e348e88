-- ===== src/Vault/Processes.antt =====
-- Several processes on one vault: the commands of their `put` and `get` calls in any order, each
-- command as a whole.
pub mod History
pub mod Turn
pub mod Alone
pub mod Linear
use custodly.Prelude.{
  refl, ℕ, List, [], ◌∷◌, Result, ok, err, run_next, returns, if◌then◌else◌, ◌==◌, ◌≡◌,
}
use custodly.Text.{Text}
use custodly.Chrono.{Chrono}
use custodly.Entry.{EntryMetadata, new_entry}
use custodly.Vault.Host.{Host}
use custodly.Vault.Notes.{encode_metadata}
use custodly.Vault.Store.{Vault, run, get, ensure_group, add_args}
use custodly.Vault.Abstract.{Call, put_call, get_call, Reply, put_reply, get_reply, call_path}
use custodly.Vault.Store

module _ (host : Host) (c : Chrono) where
  -- How far a call has got: a `put` runs two commands, a `get` one.
  pub data Phase : Type 0 where
    waiting : Call host c → Phase
    grouped : (label : Text) (m : EntryMetadata c.DateTime) (secret : Text) → Phase
    replied : Reply host c → Phase

  abbrev pub replied_put : Result (Store.Error host) Text → Phase
  replied_put (ok out) = replied (put_reply (ok tt))
  replied_put (err e) = replied (put_reply (err e))

  pub replied_put_of :
      (r : Result (Store.Error host) Text × host.World)
      → let done = run_next r (λ _. returns tt) in
        ◌≡◌ {A = Phase × host.World} (replied_put r.0, r.1) (replied (put_reply done.0), done.1)
  replied_put_of (ok out, w) = refl
  replied_put_of (err e, w) = refl

  module _ (v : Vault) where
    unfoldable pub advance : Phase → host.World → Phase × host.World
    advance (waiting (put_call label m secret)) w =
        (grouped label m secret, (ensure_group host v m.project w).1)
    advance (waiting (get_call q)) w = let (r, w') = get host c v q w in (replied (get_reply r), w')
    advance (grouped label m secret) w =
        let (r, w') =
          run host v (add_args (encode_metadata c m) v.db_path (call_path host c label m))
            (secret ∷ secret ∷ []) w in
        (replied_put r, w')
    advance (replied r) w = (replied r, w)

    pub record Processes : Type 0 where
      pub phases : ℕ → Phase
      pub world : host.World

    unfoldable pub turn : ℕ → Processes → Processes
    turn i s =
        let (phase, w) = advance (s.phases i) s.world in
        record { phases = λ j. if i == j then phase else s.phases j; world = w }

    unfoldable pub take_turns : List ℕ → Processes → Processes
    take_turns [] s = s
    take_turns (i ∷ is) s = take_turns is (turn i s)

    abbrev pub all_waiting : (ℕ → Call host c) → host.World → Processes
    all_waiting calls w = record { phases = λ i. waiting (calls i); world = w }
