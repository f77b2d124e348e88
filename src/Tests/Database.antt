-- ===== src/Tests/Database.antt =====
-- The vault over a database that is a list of entries.
use custodly.Prelude.{
  ◌≡◌, refl, ap, true, false, List, [], ◌∷◌, ◌++◌, Option, none, some, ok, err, Bool, is_some,
  Bool-cases, inl, inr, if◌then◌else◌, ℕ, ◌⊎◌,
}
use mathlib.Core.Path.{fun_ext}
use custodly.Text.{
  Text, codes, has, eq_text, strip_cr, end_lines, is_whitespace, join, lines, split, split_once,
  strip_prefix, trim, trim_end, trim_start,
}
use custodly.Map.{Map, get, insert, lt_text}
use custodly.Map.Laws.{get-insert}
use custodly.Vault.Host.{Host, Output}
use custodly.Vault.Store.{
  Vault, mkdir_args, add_args, show_args, put, run, feed, password, write_lines, collect_output,
  ensure_group, read_entry, not_found,
}
use custodly.Vault.Database.{IsDatabase, Shown, IsAddOnly, show_command}
use custodly.Vault.Abstract.{
  Call, put_call, get_call, Contents, make_calls, make_call, get_reply, put_reply,
}
use custodly.Vault.Kept.{get-put}
use custodly.Vault.Once.{Failed, put_twice}
use custodly.Vault.Refine.{Represents, Refined, make_calls-Refined}
use custodly.Vault.Password.{get_or_create, existing_or}
use custodly.Entry.{query_group_path, new_metadata, new_entry, VaultEntry}
use custodly.Vault.Notes.{
  decode_metadata, collect_fields, decode_fields, decode_source, decode_tier, encode_metadata,
  encode_source, encode_tier,
}
use custodly.Tests.Vault.{tick_clock, tick_clock-IsRfc3339, moved_key, moved_key-IsWritable}
use custodly.Tests.Machine.{a_vault}
use custodly.Vault.Store

pub record Disk : Type 0 where
  pub entries : Map (Text × Text)
  pub input : List Text
  pub printed : List Text

abbrev output : Bool → Text → Output
output success stdout = record { success = success; stdout = stdout; stderr = [] }

abbrev shown : Option (Text × Text) → Output
shown none = output false []
shown (some (secret, notes)) = output true (secret ++ (b'\n' ∷ (notes ++ (b'\n' ∷ []))))

abbrev shown_of : Text → Disk → Output
shown_of path w = shown (get path w.entries)

-- A path that has an entry is refused.
abbrev add : Text → Text → List Text → Disk → Output × Disk
add notes path (pw ∷ secret ∷ again ∷ []) w =
    if is_some (get path w.entries)
    then (output false [], w)
    else (output true [], record w { entries = insert path (secret, notes) w.entries })
add notes path ls w = (output false [], w)

pub add-refuses :
    (notes path : Text) (ls : List Text) (old : Text × Text) (w : Disk)
    → get path w.entries ≡ some old
    → (((add notes path ls w).0).success ≡ false) × ((add notes path ls w).1 ≡ w)
add-refuses notes path [] old w h = (refl, refl)
add-refuses notes path (a ∷ []) old w h = (refl, refl)
add-refuses notes path (a ∷ b ∷ []) old w h = (refl, refl)
add-refuses notes path (a ∷ b ∷ c ∷ []) old w h = rw h (refl, refl)
add-refuses notes path (a ∷ b ∷ c ∷ d ∷ ls) old w h = (refl, refl)

-- Seven arguments are an `add`, nine a `show`.
abbrev execute : List Text → Disk → Output × Disk
execute (a ∷ b ∷ c ∷ d ∷ notes ∷ db ∷ path ∷ []) w = add notes path w.input w
execute (a ∷ b ∷ c ∷ d ∷ e ∷ f ∷ g ∷ db ∷ path ∷ []) w = (shown (get path w.entries), w)
execute _ w = (output true [], w)

abbrev pub disk_host : Host
disk_host = record {
  World = Disk;
  IoError = Unit;
  KeyringError = Unit;
  KeyringEntry = Unit;
  Child = List Text;
  exists = λ path w. true;
  spawn = λ path args w. (ok args, record w { input = [] });
  write_line = λ child line w. (ok tt, record w { input = w.input ++ (line ∷ []) });
  wait_with_output = λ child w. let (o, w') = execute child w in (ok o, w');
  from_utf8_lossy = λ bytes. bytes;
  keyring_entry = λ service name. ok tt;
  get_password = λ e w. (ok (codes "pw"), w);
  set_password = λ e p w. (ok tt, w);
  is_no_entry = λ e. true;
  random_range = λ n h w. ((0, h), w);
}

pub shown_lem :
    (found : Option (Text × Text))
    → (shown found).success ≡ true
    → Shown disk_host (shown found) found
shown_lem none h = cc
shown_lem (some (secret, notes)) h = record {
  secret = secret;
  notes = notes;
  found_is = refl;
  printed = refl;
}

unfoldable pub disk_host-IsDatabase : IsDatabase disk_host a_vault
unfolding has
disk_host-IsDatabase = record {
  stored = λ w path. get path w.entries;
  arguments = λ child. child;
  typed = λ child w. w.input;
  stored-spawn = λ args w. refl;
  spawned = λ args child w w' h. (cc, rw (← ap (λ r. r.1) h) refl);
  stored-write_line = λ child line w. refl;
  written = λ child line w w' one h. rw (← ap (λ r. r.1) h) refl;
  stored-get_password = λ e w. refl;
  typed-get_password = λ child e w. refl;
  stored-set_password = λ e p w. refl;
  typed-set_password = λ child e p w. refl;
  stored-random_range = λ n h w. refl;
  typed-random_range = λ child n h w. refl;
  one_line = λ e p w w' h. let same : p ≡ codes "pw" = cc h in rw same refl;
  stored-mkdir = λ child project w h. rw h refl;
  stored-show = λ child path w h. rw h refl;
  shown = λ child path o w w' a h s.
      let same : o ≡ shown_of path w = cc (rw a at h) in
      rw same (shown_lem (get path w.entries) (rw same at s));
  added = λ child path notes pw secret w a t. elim (Bool-cases (is_some (get path w.entries))) [
    | inl there ↦ rw (a, t, there) refl
    | inr free ↦ rw (a, t, free) (fun_ext (λ p. get-insert p path (secret, notes) w.entries))
  ];
}

pub disk_host-IsAddOnly : IsAddOnly disk_host a_vault disk_host-IsDatabase
unfolding disk_host-IsDatabase
disk_host-IsAddOnly = record {
  refuses = λ child path notes old w a h.
      let (refused, same) = add-refuses notes path w.input old w h in
      rw a (refused, ap (λ u (p : Text). get p u.entries) same);
}

abbrev pub empty_disk : Disk
empty_disk = record { entries = []; input = []; printed = [] }

abbrev pub no_contents : Contents disk_host tick_clock
no_contents path = none

pub starts :
    Represents disk_host tick_clock tick_clock-IsRfc3339 a_vault disk_host-IsDatabase empty_disk
      no_contents
unfolding get disk_host-IsDatabase
starts = record { holds = λ path. refl; readable = λ path. tt }

abbrev calls : List (Call disk_host tick_clock)
calls =
    get_call (record { project = codes "redaktly"; label = codes "pat" })
    ∷ put_call (codes "pat") moved_key (codes "s3cret")
    ∷ get_call (record { project = codes "redaktly"; label = codes "pat" })
    ∷ []

make_calls-Refined_example :
    Refined disk_host tick_clock tick_clock-IsRfc3339 a_vault disk_host-IsDatabase no_contents calls
      (make_calls disk_host tick_clock a_vault calls empty_disk)
unfolding has strip_cr
make_calls-Refined_example =
    make_calls-Refined disk_host tick_clock tick_clock-IsRfc3339 a_vault disk_host-IsDatabase
      no_contents calls empty_disk starts (tt, ((moved_key-IsWritable, (refl, refl)), (tt, tt)))

replies_are :
    (make_calls disk_host tick_clock a_vault calls empty_disk).0
    ≡ get_reply (err (not_found (codes "redaktly") (codes "pat")))
      ∷ put_reply (ok tt)
      ∷ get_reply (ok (new_entry (codes "pat") moved_key (codes "s3cret")))
      ∷ []
unfolding make_calls Store.get get insert eq_text new_entry strip_cr make_call put run feed password
    get_or_create existing_or write_lines collect_output ensure_group query_group_path read_entry
    decode_metadata new_metadata lt_text end_lines is_whitespace join lines split split_once
    strip_prefix trim trim_end trim_start collect_fields decode_fields decode_source decode_tier
    encode_metadata encode_source encode_tier
replies_are = refl

abbrev first_entry : VaultEntry ℕ
first_entry = new_entry (codes "pat") moved_key (codes "s3cret")

abbrev renewed : VaultEntry ℕ
renewed = new_entry (codes "pat") moved_key (codes "renewed")

abbrev first_put : Disk
first_put = (put disk_host tick_clock a_vault first_entry empty_disk).1

put_once : put disk_host tick_clock a_vault first_entry empty_disk ≡ (ok tt, first_put)
unfolding get insert eq_text new_entry put run feed password get_or_create existing_or write_lines
    collect_output ensure_group query_group_path
put_once = refl

put_twice_example :
    Failed disk_host a_vault disk_host-IsDatabase disk_host-IsAddOnly
      (put disk_host tick_clock a_vault renewed first_put)
      first_put
unfolding has new_entry
put_twice_example =
    put_twice disk_host a_vault disk_host-IsDatabase disk_host-IsAddOnly tick_clock
      tick_clock-IsRfc3339 first_entry renewed empty_disk first_put first_put refl refl put_once
      refl refl

get-put_example :
    let fetched =
      (Store.get disk_host tick_clock a_vault
        (record { project = moved_key.project; label = codes "pat" })
        first_put).0 in
    (fetched ≡ ok (new_entry (codes "pat") moved_key (codes "s3cret")))
    ⊎ ((x : Store.Error disk_host) × ((run disk_host a_vault
            (show_command a_vault.db_path (moved_key.project ++ (b'/' ∷ codes "pat")))
            []
            first_put).0
          ≡ err x)
        × (fetched ≡ err (not_found moved_key.project (codes "pat"))))
unfolding has strip_cr
get-put_example =
    get-put disk_host a_vault disk_host-IsDatabase tick_clock tick_clock-IsRfc3339 (codes "pat")
      (codes "s3cret") moved_key empty_disk first_put first_put moved_key-IsWritable (refl, refl)
      put_once refl
