-- ===== src/Vault/Child.antt =====
-- One run of `keepassxc-cli`, up to the wait for its end.
use custodly.Prelude.{
  ◌≡◌, inl, inr, refl, ◌∙◌, sym, ap, false, List, [], ◌∷◌, ◌++◌, Result, ok, err, Result-cases,
  Bool-cases, All, run_next, convert_io, append_assoc, append-nil,
}
use custodly.Text.{Text, has}
use custodly.Vault.Host.{Host}
use custodly.Vault.Password.{get_or_create}
use custodly.Vault.Store.{
  Vault, Error, password, write_lines, collect_output, feed, run, io, keyring, cli_not_found,
}
use custodly.Vault.Database.{IsDatabase}
use custodly.Vault.Session.{get_or_create-Opened}

module _ (host : Host) (v : Vault) (db : IsDatabase host v) where
  -- Lines that reach a child as they are.
  abbrev pub AllLines : List Text → Type 0
  AllLines = All (λ l. has b'\n' l ≡ false)

  record Typed (child : host.Child) (ls : List Text)
      (r : Result (Error host) (Unit {0}) × host.World) (w : host.World) : Type 0 where
    stored : db.stored r.1 ≡ db.stored w
    typed : r.0 ≡ ok tt → db.typed child r.1 ≡ db.typed child w ++ ls

  write_lines-Typed :
      (child : host.Child) (ls : List Text) (w : host.World)
      → AllLines ls
      → Typed child ls (write_lines host child ls w) w
  unfolding write_lines
  write_lines-Typed child [] w h = record {
    stored = refl;
    typed = λ k. sym (append-nil (db.typed child w));
  }
  write_lines-Typed child (l ∷ ls) w (this, rest) =
      elim (Result-cases (host.write_line child l w).0) [
        | inl (u, e) ↦
            let next = write_lines-Typed child ls (host.write_line child l w).1 rest in
            rw e (record {
              stored = next.stored ∙ db.stored-write_line child l w;
              typed = λ k.
                  next.typed k
                  ∙ ap (λ t. t ++ ls)
                      (db.written child l w _ this (ap (λ r. (r, (host.write_line child l w).1)) e))
                  ∙ append_assoc (db.typed child w) (l ∷ []) ls;
            })
        | inr (x, e) ↦ rw e (record { stored = db.stored-write_line child l w; typed = λ k. cc })
      ]

  -- A run that ended early has left the entries alone; any other waited for a child that was
  -- started with the arguments, and had the password and the lines typed in.
  pub data Ran (args extra : List Text) (w : host.World)
      : Result (Error host) Text × host.World → Type 0 where
    ended :
        (e : Error host) (u : host.World) → db.stored u ≡ db.stored w → Ran args extra w (err e, u)
    waited :
        (child : host.Child) (pw : Text) (u : host.World)
        → db.arguments child ≡ args
        → db.typed child u ≡ pw ∷ extra
        → db.stored u ≡ db.stored w
        → Ran args extra w
            (run_next (convert_io io (host.wait_with_output child) u) (collect_output host))

  feed-Ran :
      (args extra : List Text) (child : host.Child) (start w : host.World)
      → AllLines extra
      → db.arguments child ≡ args
      → db.typed child w ≡ []
      → db.stored w ≡ db.stored start
      → Ran args extra start (feed host v extra child w)
  unfolding feed password
  feed-Ran args extra child start w lines a t s =
      let opened = get_or_create-Opened host v db v.keyring_name w in
      let s1 = opened.same.stored ∙ s in
      let w1 = (get_or_create host v.keyring_name w).1 in
      elim (Result-cases (get_or_create host v.keyring_name w).0) [
        | inr (x, e) ↦ rw e (ended (keyring x) w1 s1)
        | inl (pw, e) ↦
            let s2 = db.stored-write_line child pw w1 ∙ s1 in
            let w2 = (host.write_line child pw w1).1 in
            elim (Result-cases (host.write_line child pw w1).0) [
              | inr (x, e2) ↦ rw (e, e2) (ended (io x) w2 s2)
              | inl (u, e2) ↦
                  let ty = write_lines-Typed child extra w2 lines in
                  let w3 = (write_lines host child extra w2).1 in
                  let first =
                    db.written child pw w1 w2 (opened.line pw e) (ap (λ r. (r, w2)) e2)
                    ∙ ap (λ ls. ls ++ (pw ∷ [])) (opened.same.typed child ∙ t) in
                  elim (Result-cases (write_lines host child extra w2).0) [
                    | inr (x, e3) ↦ rw (e, e2, e3) (ended x w3 (ty.stored ∙ s2))
                    | inl (u, e3) ↦
                        rw (e, e2, e3)
                          (waited child pw w3 a (ty.typed e3 ∙ ap (λ ls. ls ++ extra) first)
                            (ty.stored ∙ s2))
                  ]
            ]
      ]

  pub run-Ran :
      (args extra : List Text) (w : host.World)
      → AllLines extra
      → Ran args extra w (run host v args extra w)
  unfolding run
  run-Ran args extra w lines = elim (Bool-cases (host.exists v.cli_path w)) [
    | inl there ↦ elim (Result-cases (host.spawn v.cli_path args w).0) [
      | inl (child, e) ↦
          let w1 = (host.spawn v.cli_path args w).1 in
          let (started, empty) = db.spawned args child w w1 (ap (λ r. (r, w1)) e) in
          rw (there, e)
            (feed-Ran args extra child w w1 lines started empty (db.stored-spawn args w))
      | inr (x, e) ↦ rw (there, e) (ended (io x) _ (db.stored-spawn args w))
    ]
    | inr missing ↦ rw missing (ended (cli_not_found v.cli_path) w refl)
  ]
