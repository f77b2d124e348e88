-- ===== src/Tests/Live.antt =====
-- Runs that succeed, on the small machine.
use custodly.Prelude.{◌≡◌, refl, [], ◌∷◌, ok, ℕ, Result, Any, List, ◌↔◌, some, true, false, none}
use custodly.Text.{
  codes, trim, trim_start, trim_end, is_whitespace, eq_text, contains, join, split, split_once,
  starts_with, Text,
}
use custodly.Vault.Store.{
  put, collect_output, ensure_group, feed, password, run, write_lines, VaultError,
}
use custodly.Cli.{app_of, grant_of}
use custodly.Tier.{as_u8, score, tier1}
use custodly.Tests.Machine.{World, fresh, machine, network, signer, plain, process, answers}
use custodly.Github.{
  MintedToken, verify_no_scope_creep, verify_entries, verify_entry, verify_level, from_response,
  level_rank, scope_of, Permissions,
}
use custodly.Cli.Mint.{
  mint_github, read_key, after_mint, deposit_step, cache_step, deposit_with, vault_of,
  needs_ferryman_deposit,
}
use custodly.Map.{from_list, get, insert, lt_text}
use custodly.Client.{check_response, deposit, fetch_ingestion_key, read_json, read_receipt}
use custodly.Github.Mint.{mint_installation_token, read_response, read_token, accept, api_error}
use custodly.Github.Jwt.{mint_jwt, claims}
use custodly.Entry.{new_entry, new_metadata}
use custodly.Seal.{
  cipher_for, cipher_from, deposit_aad, hex_decode_32, seal_for_ingestion, seal_nonce, seal_to,
  seal_with,
}
use custodly.Text.Decimal.{decimal, digits_onto}
use custodly.Text.Utf8.{as_bytes, char_bytes}
use custodly.Tier.Scope.{
  apply_grant, apply_level, apply_resource, assess_github_scope, assess_pair, assess_pairs,
  is_bounded, is_sensitive,
}
use custodly.Vault.Notes.{encode_metadata, encode_source, encode_tier}
use custodly.Vault.Password.{create, existing_or, generate, generate_chars, get_or_create, nth}
use custodly.Tests.Vault.{tick_clock}
use custodly.Cli.Live.{cached_metadata, leave}
use custodly.Cli.Apart.{with_ferryman, mint_github-with_ferryman}
use custodly.Cli.Agree.{asked, deposit_metadata-app}
use custodly.Server.{policy}
use custodly.Policy.{gate_human_approval}
use custodly.Contract.{contract_version}
use custodly.Tests.Flow.{command}
use custodly.Client

abbrev granted : Permissions
granted = (codes "contents", codes "write") ∷ []

abbrev pem : Text
pem = codes "pem"

abbrev token : MintedToken ℕ
token = record {
  token = codes "ghs";
  expires_at = 60;
  granted_permissions = (codes "contents", codes "write") ∷ [];
  scope_string = codes "contents:write";
  tier = tier1;
}

abbrev after_leave : World
after_leave = (leave tick_clock machine network signer plain process answers command token fresh).1

abbrev put_cached : Result (VaultError (Unit {0}) (Unit {0})) (Unit {0}) × World
put_cached =
    put machine tick_clock
      (vault_of tick_clock machine network signer plain process answers command)
      (new_entry (codes "pat")
        (cached_metadata tick_clock machine network signer plain process answers command token 3)
        (codes "ghs"))
      after_leave

key_read : read_key tick_clock machine network signer plain process answers fresh ≡ (ok pem, fresh)
unfolding read_key trim trim_start trim_end is_whitespace
key_read = refl

minted :
    mint_installation_token network tick_clock signer answers.token_response process.utc_now
      (app_of command pem)
      (grant_of command)
      fresh
    ≡ (ok token, fresh)
unfolding mint_github read_key trim trim_start trim_end is_whitespace after_mint deposit_step put
    Client.read_key from_list cache_step deposit_with check_response deposit fetch_ingestion_key
    read_json read_receipt mint_installation_token mint_jwt read_response read_token accept
    verify_no_scope_creep verify_entries verify_entry eq_text verify_level get new_entry
    new_metadata claims api_error from_response level_rank scope_of insert lt_text cipher_for
    cipher_from deposit_aad hex_decode_32 seal_for_ingestion seal_nonce seal_to seal_with decimal
    digits_onto as_bytes char_bytes contains join split split_once starts_with apply_grant
    apply_level apply_resource assess_github_scope assess_pair assess_pairs is_bounded is_sensitive
    as_u8 score encode_metadata encode_source encode_tier create existing_or generate generate_chars
    get_or_create nth collect_output ensure_group feed password run write_lines
minted = refl

left :
    leave tick_clock machine network signer plain process answers command token fresh
    ≡ (ok tt, after_leave)
unfolding deposit_step
left = refl

cached : put_cached ≡ (ok tt, put_cached.1)
unfolding mint_github read_key trim trim_start trim_end is_whitespace after_mint deposit_step put
    Client.read_key from_list cache_step deposit_with check_response deposit fetch_ingestion_key
    read_json read_receipt mint_installation_token mint_jwt read_response read_token accept
    verify_no_scope_creep verify_entries verify_entry eq_text verify_level get new_entry
    new_metadata claims api_error from_response level_rank scope_of insert lt_text cipher_for
    cipher_from deposit_aad hex_decode_32 seal_for_ingestion seal_nonce seal_to seal_with decimal
    digits_onto as_bytes char_bytes contains join split split_once starts_with apply_grant
    apply_level apply_resource assess_github_scope assess_pair assess_pairs is_bounded is_sensitive
    as_u8 score encode_metadata encode_source encode_tier create existing_or generate generate_chars
    get_or_create nth collect_output ensure_group feed password run write_lines
cached = refl

deposit_metadata-app_example :
    (requires : List Text) × (asked (codes "github") (codes "contents:write")
      ≡ some (policy 1 requires contract_version))
    × (Any (λ r. r ≡ gate_human_approval) requires ↔ (needs_ferryman_deposit tier1 false ≡ true))
unfolding as_u8
deposit_metadata-app_example =
    deposit_metadata-app tick_clock machine network signer plain process answers command pem token 3
      fresh fresh minted

mint_github-with_ferryman_example :
    mint_github tick_clock machine network signer plain process answers command fresh
    ≡ mint_github tick_clock machine network signer plain process answers
        (with_ferryman command none (some (codes "elsewhere")) none)
        fresh
mint_github-with_ferryman_example =
    mint_github-with_ferryman tick_clock machine network signer plain process answers command none
      (some (codes "elsewhere")) none pem token fresh fresh fresh refl key_read minted refl
