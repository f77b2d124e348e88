-- ===== src/Vault/Refine.antt =====
-- The vault refines the map of its entries.
use custodly.Prelude.{
  ◌≡◌, inl, inr, ◌∙◌, sym, ap, List, [], ◌∷◌, ◌++◌, Option, none, some, Option-cases, Result,
  Result-cases, Bool-cases, All, run_next, returns,
}
use custodly.Text.{Text, eq_text}
use custodly.Text.Split.{IsLine}
use custodly.Chrono.{Chrono, IsRfc3339}
use custodly.Entry.{EntryMetadata, SecretQuery, query_group_path, new_entry}
use custodly.Vault.Host.{Host}
use custodly.Vault.Notes.{encode_metadata}
use custodly.Vault.RoundTrip.{IsWritable}
use custodly.Vault.Store.{
  Vault, run, put, get, ensure_group, io, not_found, mkdir_args, add_args, show_args,
}
use custodly.Vault.Database.{IsDatabase, update}
use custodly.Vault.Child.{run-Ran}
use custodly.Vault.Commands.{
  AddedBy, made, unmade, lost, add-AddedBy, mkdir-stored, show-ok, show-stored,
}
use custodly.Vault.Fetch.{read_entry_printed}
use custodly.Vault.Abstract.{
  Contents, Call, put_call, get_call, Reply, put_reply, get_reply, IsCall, Step, put_done,
  put_failed, put_lost, get_found, get_missed, Run, stop, next, make_call, make_calls, call_path,
}
use custodly.Vault.Store

module _ (host : Host) (c : Chrono) (laws : IsRfc3339 c) (v : Vault) (db : IsDatabase host v) where
  abbrev encoded : Option (Text × EntryMetadata c.DateTime) → Option (Text × Text)
  encoded none = none
  encoded (some (secret, m)) = some (secret, encode_metadata c m)

  abbrev IsReadable : Option (Text × EntryMetadata c.DateTime) → Type 0
  IsReadable none = Unit
  IsReadable (some (secret, m)) = IsWritable m × IsLine secret

  -- The database holds the entries of the map, written out, and can read each back.
  pub record Represents (w : host.World) (s : Contents host c) : Type 0 where
    pub holds : (path : Text) → db.stored w path ≡ encoded (s path)
    pub readable : (path : Text) → IsReadable (s path)

  Represents-update :
      (w u : host.World) (s : Contents host c) (path secret : Text) (m : EntryMetadata c.DateTime)
      → Represents w s
      → IsWritable m
      → IsLine secret
      → db.stored u ≡ update path (secret, encode_metadata c m) (db.stored w)
      → Represents u (update path (secret, m) s)
  Represents-update w u s path secret m r iw line e = record {
    holds = λ p. ap (λ f. f p) e ∙ elim (Bool-cases (eq_text path p)) [
      | inl this ↦ rw this
      | inr other ↦ rw other (r.holds p)
    ];
    readable = λ p. elim (Bool-cases (eq_text path p)) [
      | inl this ↦ rw this (iw, line)
      | inr other ↦ rw other (r.readable p)
    ];
  }

  pub Represents-same :
      (w u : host.World) (s : Contents host c)
      → Represents w s
      → db.stored u ≡ db.stored w
      → Represents u s
  Represents-same w u s r e = record {
    holds = λ p. ap (λ f. f p) e ∙ r.holds p;
    readable = r.readable;
  }

  -- A call that the map allows, and the map that the database then holds.
  pub record Stepped (s : Contents host c) (call : Call host c) (r : Reply host c × host.World)
      : Type 0 where
    pub contents : Contents host c
    pub step : Step host c s call r.0 contents
    pub holds : Represents r.1 contents

  pub put-Stepped :
      (s : Contents host c) (label secret : Text) (m : EntryMetadata c.DateTime) (w : host.World)
      (r : Result (Store.Error host) Text × host.World)
      → Represents w s
      → IsWritable m
      → IsLine secret
      → AddedBy host v db (call_path host c label m) secret (encode_metadata c m) w r
      → let done = run_next r (λ _. returns tt) in
        Stepped s (put_call label m secret) (put_reply done.0, done.1)
  put-Stepped s label secret m w _ r iw line (made out u e) = record {
    contents = _;
    step = put_done s label m secret;
    holds = Represents-update w u s _ secret m r iw line e;
  }
  put-Stepped s label secret m w _ r iw line (unmade x u e) = record {
    contents = s;
    step = put_failed s label m secret x;
    holds = Represents-same w u s r e;
  }
  put-Stepped s label secret m w _ r iw line (lost x u e) = record {
    contents = _;
    step = put_lost s label m secret x;
    holds = Represents-update w u s _ secret m r iw line e;
  }

  pub get-Stepped :
      (s : Contents host c) (q : SecretQuery) (w : host.World)
      → Represents w s
      → Stepped s (get_call q) (get_reply (get host c v q w).0, (get host c v q w).1)
  unfolding get
  get-Stepped s q w r =
      let path = query_group_path q in
      let shown = run host v (show_args v.db_path path) [] w in
      let ran = run-Ran host v db (show_args v.db_path path) [] w tt in
      let after = Represents-same w shown.1 s r (show-stored host v db path w shown ran) in
      elim (Result-cases shown.0) [
        | inl (out, e) ↦
            let (secret, notes, at, printed) = show-ok host v db path out w shown ran e in
            elim (Option-cases (s path)) [
              | inl missing ↦ cc (at, rw missing at (r.holds path))
              | inr ((sec, m), found) ↦
                  let same = rw found at (sym at ∙ r.holds path) in
                  let (iw, line) = rw found at (r.readable path) in
                  let whole : out ≡ sec ++ (b'\n' ∷ (encode_metadata c m ++ (b'\n' ∷ []))) =
                    cc (printed, same) in
                  rw (e, whole, read_entry_printed host c laws q sec m iw line)
                    (record { contents = s; step = get_found s q m sec found; holds = after })
            ]
        | inr (x, e) ↦ rw e (record { contents = s; step = get_missed s q; holds = after })
      ]

  call-Stepped :
      (s : Contents host c) (call : Call host c) (w : host.World)
      → Represents w s
      → IsCall host c call
      → Stepped s call (make_call host c v call w)
  unfolding make_call put ensure_group new_entry query_group_path
  call-Stepped s (get_call q) w r h = get-Stepped s q w r
  call-Stepped s (put_call label m secret) w r (iw, line) =
      let path = call_path host c label m in
      let notes = encode_metadata c m in
      let u = (run host v (mkdir_args v.db_path m.project) [] w).1 in
      let still =
        mkdir-stored host v db m.project w _
          (run-Ran host v db (mkdir_args v.db_path m.project) [] w tt) in
      let lines = secret ∷ secret ∷ [] in
      put-Stepped s label secret m u (run host v (add_args notes v.db_path path) lines u)
        (Represents-same w u s r still) iw line
        (add-AddedBy host v db path secret notes u _
          (run-Ran host v db (add_args notes v.db_path path) lines u (line.0, (line.0, tt))))

  -- A run that the map allows, and the map that the database then holds.
  pub record Refined (s : Contents host c) (calls : List (Call host c))
      (r : List (Reply host c) × host.World) : Type 0 where
    pub contents : Contents host c
    pub run : Run host c s calls r.0 contents
    pub holds : Represents r.1 contents

  -- From a database that holds the entries of a map, every sequence of calls gives replies that the
  -- map allows, one step after the other, and leaves a database that holds the map's entries.
  pub make_calls-Refined :
      (s : Contents host c) (calls : List (Call host c)) (w : host.World)
      → Represents w s
      → All (IsCall host c) calls
      → Refined s calls (make_calls host c v calls w)
  unfolding make_calls
  make_calls-Refined s [] w r h = record { contents = s; run = stop s; holds = r }
  make_calls-Refined s (call ∷ calls) w r (h, hs) =
      let first = call-Stepped s call w r h in
      let (reply, u) = make_call host c v call w in
      let rest = make_calls-Refined first.contents calls u first.holds hs in
      record {
        contents = rest.contents;
        run = next s first.contents rest.contents call reply calls _ first.step rest.run;
        holds = rest.holds;
      }
