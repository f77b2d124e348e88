-- ===== src/Tests/Flow.antt =====
-- Runs of the subcommands on the small machine.
use custodly.Prelude.{◌≡◌, refl, [], ◌∷◌, some, false, ok, Io, true, err, none, ℕ}
use custodly.Text.{
  codes, trim, trim_start, trim_end, is_whitespace, eq_text, contains, join, split, split_once,
  starts_with,
}
use custodly.Vault.Store.{put, collect_output, ensure_group, feed, password, run, write_lines}
use custodly.Cli.{MintGithub, grant_of}
use custodly.Tier.{tier0, as_u8, score}
use custodly.Wire.Deposit.{Received, deposit_with-Received}
use custodly.Tests.Json.{json, json-IsSerde}
use custodly.Tests.Machine.{
  plain-IsSound, zero_bytes-length, World, fresh, machine, network, signer, plain, process, answers,
}
use custodly.Cli.Stages.{Stopped}
use custodly.Cli.Stop.{mint_github-Stopped}
use custodly.Cli.Leave.{Handled, mint_github-Handled}
use custodly.Cli.Apart.{with_vault, mint_github-with_vault}
use custodly.Github.{
  MintedToken, verify_no_scope_creep, verify_entries, verify_entry, verify_level, from_response,
  level_rank, scope_of, GithubError, Permissions, scope_creep,
}
use custodly.Cli.Mint.{
  Error, mint_github, read_key, after_mint, deposit_step, cache_step, deposit_with, Parsers, github,
}
use custodly.Map.{from_list, get, insert, lt_text}
use custodly.Client.{check_response, deposit, fetch_ingestion_key, read_json, read_receipt}
use custodly.Github.Mint.{mint_installation_token, read_response, read_token, accept, api_error}
use custodly.Github.Jwt.{mint_jwt, claims}
use custodly.Entry.{new_entry, new_metadata}
use custodly.Seal.{
  cipher_for, cipher_from, deposit_aad, hex_decode_32, seal_for_ingestion, seal_nonce, seal_to,
  seal_with,
}
use custodly.Text.Decimal.{decimal, digits_onto}
use custodly.Text.Utf8.{as_bytes, char_bytes}
use custodly.Tier.Scope.{
  apply_grant, apply_level, apply_resource, assess_github_scope, assess_pair, assess_pairs,
  is_bounded, is_sensitive,
}
use custodly.Vault.Notes.{encode_metadata, encode_source, encode_tier}
use custodly.Vault.Password.{create, existing_or, generate, generate_chars, get_or_create, nth}
use custodly.Tests.Vault.{tick_clock}
use custodly.Client

abbrev pub command : MintGithub
command = record {
  app_id = 12;
  installation_id = 34;
  permissions = (codes "contents", codes "write") ∷ [];
  repository_ids = [];
  project = codes "redaktly";
  label = codes "pat";
  vault = codes "/db";
  cli_path = codes "/bin/kp";
  keyring_name = codes "main";
  for_recipient = false;
  ferryman_base_url = some (codes "http://f");
  ferryman_project = some (codes "p");
  ferryman_token = some (codes "t");
}

abbrev Step : Type 0
Step = Io World (Error tick_clock machine network signer plain process answers) (Unit {0})

abbrev run_command : MintGithub → Step
run_command = mint_github tick_clock machine network signer plain process answers

outcome : run_command command fresh ≡ (ok tt, (run_command command fresh).1)
unfolding mint_github read_key trim trim_start trim_end is_whitespace after_mint deposit_step put
    Client.read_key from_list cache_step deposit_with check_response deposit fetch_ingestion_key
    read_json read_receipt mint_installation_token mint_jwt read_response read_token accept
    verify_no_scope_creep verify_entries verify_entry eq_text verify_level get new_entry
    new_metadata claims api_error from_response level_rank scope_of insert lt_text cipher_for
    cipher_from deposit_aad hex_decode_32 seal_for_ingestion seal_nonce seal_to seal_with decimal
    digits_onto as_bytes char_bytes contains join split split_once starts_with apply_grant
    apply_level apply_resource assess_github_scope assess_pair assess_pairs is_bounded is_sensitive
    as_u8 score encode_metadata encode_source encode_tier create existing_or generate generate_chars
    get_or_create nth collect_output ensure_group feed password run write_lines
outcome = refl

mint_github-Handled_example :
    Handled tick_clock machine network signer plain process answers command fresh
      (run_command command fresh).1
mint_github-Handled_example =
    mint_github-Handled tick_clock machine network signer plain process answers command fresh
      (run_command command fresh).1 outcome

abbrev minted : MintedToken ℕ
minted = record {
  token = codes "ghs";
  expires_at = 60;
  granted_permissions = (codes "issues", codes "read") ∷ [];
  scope_string = codes "issues:read";
  tier = tier0;
}

abbrev for_someone : MintGithub
for_someone = record command { for_recipient = true }

abbrev without_flags : MintGithub
without_flags = record for_someone { ferryman_token = none }

mint_github-with_vault_example :
    run_command for_someone fresh
    ≡ run_command
        (with_vault for_someone (codes "/other") (codes "/bin/other") (codes "spare"))
        fresh
mint_github-with_vault_example =
    mint_github-with_vault tick_clock machine network signer plain process answers for_someone
      (codes "/other") (codes "/bin/other") (codes "spare") fresh refl

abbrev granted_more : Permissions
granted_more = (codes "administration", codes "write") ∷ []

abbrev greedy : Parsers ℕ (Unit {0})
greedy = record answers {
  token_response =
      λ body. ok (record { token = codes "ghs"; expires_at = 60; permissions = granted_more });
}

abbrev creep : GithubError (Unit {0}) (Unit {0})
creep = scope_creep (grant_of command).permissions granted_more

refused :
    mint_github tick_clock machine network signer plain process greedy command fresh
    ≡ (err (github creep), fresh)
unfolding mint_github read_key trim trim_start trim_end is_whitespace mint_installation_token
    mint_jwt read_response read_token accept verify_no_scope_creep verify_entries verify_entry
    verify_level get eq_text from_list insert
refused = refl

mint_github-Stopped_example :
    Stopped tick_clock machine network signer plain process greedy command fresh
      (github creep)
      fresh
mint_github-Stopped_example =
    mint_github-Stopped tick_clock machine network signer plain process greedy command fresh fresh
      (github creep) refused

received_key :
    (fetch_ingestion_key network answers.key_response
      (codes "http://f")
      (codes "p")
      (codes "t")
      (process.utc_now fresh).1).0
    ≡ ok (plain.hex_encode (plain.public_key []))
unfolding fetch_ingestion_key Client.read_key read_json check_response eq_text
received_key = refl

abbrev run_deposit : Step
run_deposit =
    deposit_with tick_clock machine network signer plain process answers command minted
      (codes "http://f", codes "p", codes "t")

deposited : run_deposit fresh ≡ (ok tt, (run_deposit fresh).1)
unfolding deposit_with fetch_ingestion_key Client.read_key read_json check_response eq_text
    seal_for_ingestion hex_decode_32 seal_to seal_nonce seal_with cipher_for cipher_from deposit
    read_receipt
deposited = refl

deposit_with-Received_example :
    Received tick_clock machine network signer plain process answers json command minted
      (codes "http://f")
      (codes "p")
      (codes "t")
      []
deposit_with-Received_example =
    deposit_with-Received tick_clock machine network signer plain process answers json json-IsSerde
      plain-IsSound zero_bytes-length command minted (codes "http://f") (codes "p") (codes "t") []
      fresh (run_deposit fresh).1 received_key deposited
