-- ===== src/Tests/Reuse.antt =====
-- A cached token read back by the credential helper, over the list of entries.
use custodly.Prelude.{ℕ, ◌≡◌, ◌++◌, refl, [], ◌∷◌, ok, Result, true}
use custodly.Text.{
  codes, has, trim, trim_start, trim_end, is_whitespace, strip_cr, split_once, split, end_lines,
  lines, join, strip_prefix, eq_text,
}
use custodly.Net.{Net}
use custodly.Github.{MintedToken}
use custodly.Tier.{tier1, as_u8}
use custodly.Vault.Fields.{IsPlain}
use custodly.Cli.Mint.{Process, source_description, cache_step, Error}
use custodly.Cli.Credential.{git_credential}
use custodly.Cli.Reuse.{helper_of, store, git_credential-cache_step}
use custodly.Entry.{new_metadata, new_entry, query_group_path}
use custodly.Vault.Store.{
  put, ensure_group, run, feed, password, write_lines, collect_output, read_entry, VaultError,
}
use custodly.Vault.Password.{get_or_create, existing_or}
use custodly.Vault.Notes.{
  encode_metadata, encode_source, encode_tier, decode_metadata, decode_fields, collect_fields,
  decode_source, decode_tier,
}
use custodly.Text.Decimal.{decimal, digits_onto}
use custodly.Map.{insert, get, lt_text}
use custodly.Tests.Vault.{tick_clock, tick_clock-IsRfc3339}
use custodly.Tests.Machine.{signer, plain, answers}
use custodly.Tests.Database.{Disk, disk_host, disk_host-IsDatabase, empty_disk}
use custodly.Tests.Flow.{command}
use custodly.Vault.Store

abbrev pub silent : Net Disk
silent = record {
  RequestError = Unit;
  Response = Unit;
  send = λ {Body} r w. (ok tt, w);
  is_success = λ r. true;
  status = λ r. 200;
  text = λ r w. (ok [], w);
}

abbrev pub terminal : Process Disk ℕ
terminal = record {
  StdinError = Unit;
  read_to_string = λ w. (ok (codes "host=github.com"), w);
  utc_now = λ w. (3, w);
  fill_bytes = λ n w. ([], w);
  println = λ line w. record w { printed = line ∷ w.printed };
  format_compact = λ t. codes "T";
}

abbrev pub token : MintedToken ℕ
token = record {
  token = codes "ghs";
  expires_at = 60;
  granted_permissions = (codes "contents", codes "write") ∷ [];
  scope_string = codes "contents:write";
  tier = tier1;
}

abbrev cached :
    Result (Error tick_clock disk_host silent signer plain terminal answers) (Unit {0}) × Disk
cached =
    cache_step tick_clock disk_host silent signer plain terminal answers
      (store tick_clock tick_clock-IsRfc3339 disk_host silent signer plain terminal answers command
        disk_host-IsDatabase)
      command token empty_disk

was_cached : cached ≡ (ok tt, cached.1)
unfolding cache_step new_metadata new_entry put ensure_group run feed password get_or_create
    existing_or write_lines collect_output encode_metadata encode_source encode_tier decimal
    digits_onto as_u8 trim trim_start trim_end is_whitespace insert get
was_cached = refl

abbrev got : Result (VaultError (Unit {0}) (Unit {0})) (Unit {0}) × Disk
got = git_credential tick_clock disk_host terminal (helper_of command) cached.1

was_got : got ≡ (ok tt, got.1)
unfolding git_credential Store.get get read_entry decode_metadata decode_fields collect_fields
    decode_source decode_tier split_once split strip_cr end_lines lines join strip_prefix lt_text
    query_group_path eq_text cache_step new_metadata new_entry put ensure_group run feed password
    get_or_create existing_or write_lines collect_output encode_metadata encode_source encode_tier
    decimal digits_onto as_u8 trim trim_start trim_end is_whitespace insert
was_got = refl

described :
    IsPlain
      (source_description tick_clock disk_host silent signer plain terminal answers command token)
unfolding has trim trim_start trim_end is_whitespace decimal
described = record { one_line = refl; trimmed = refl }

git_credential-cache_step_example :
    (x : Disk) × (got.1
      ≡ terminal.println
          (codes "password=" ++ codes "ghs")
          (terminal.println (codes "username=x-access-token") x))
unfolding has trim trim_start trim_end is_whitespace strip_cr disk_host-IsDatabase
git_credential-cache_step_example =
    git_credential-cache_step tick_clock tick_clock-IsRfc3339 disk_host silent signer plain terminal
      answers command disk_host-IsDatabase token empty_disk cached.1 cached.1 got.1 (λ line x. refl)
      (λ x. refl) (record { one_line = refl; trimmed = refl }) described (refl, refl) was_cached
      refl was_got
