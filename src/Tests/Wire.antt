-- ===== src/Tests/Wire.antt =====
-- The boundary's messages and GitHub's answer in a small JSON.
use custodly.Prelude.{refl, List, ℕ, ◌≡◌, none, some, ok, ◌>>=◌, arith, [], ◌∷◌}
use custodly.Text.{Text, codes, eq_text}
use custodly.Map.{Map, get, from_list, insert, lt_text}
use custodly.Contract.{track2_recipe, check_version}
use custodly.Client.{DepositRequest}
use custodly.Policy.{evaluate}
use custodly.Server.{PolicyQuery, policy_handler}
use custodly.Wire.Write.{write_deposit, write_body}
use custodly.Wire.Read.{
  parse_metadata, parse_sealed, parse_policy, parse_json, parse_token_answer, read_time,
}
use custodly.Wire.Messages.{write_deposit_fields, write_body-policy_handler}
use custodly.Net.{Net}
use custodly.Tier.{tier2}
use custodly.Github.{MintedToken}
use custodly.Github.Jwt.{claims}
use custodly.Github.Mint.{mint_installation_token, access_tokens_url}
use custodly.Cli.{app_of, grant_of}
use custodly.Wire.Github.{IsBare, mint_without_permissions}
use custodly.Tests.Vault.{tick_clock}
use custodly.Tests.Flow.{command}
use custodly.Tests.Machine.{World, fresh, network, signer, process}
use custodly.Tests.Json.{json, json-IsSerde}

abbrev a_deposit : DepositRequest ℕ
a_deposit = record {
  deposit_id = codes "T-00";
  sealed_secret = record {
    ephemeral_public_hex = codes "aa";
    nonce_hex = codes "bb";
    ciphertext_hex = codes "cc";
  };
  metadata = record {
    project = codes "acme";
    provider = codes "github";
    scope = codes "repo:read,pr:write";
    tier = 1;
    acquired_via = track2_recipe;
    acquired_at = 3;
    expires_at = some 9;
    label = codes "pilot";
  };
}

write_deposit_fields_example :
    (fields : Map Text) × ((json.from_str (json.to_string (write_deposit json a_deposit))
        >>= json.as_object)
      ≡ some fields)
    × ((get (codes "deposit_id") fields >>= json.as_str) ≡ some a_deposit.deposit_id)
    × ((get (codes "sealed_secret") fields >>= parse_sealed json) ≡ some a_deposit.sealed_secret)
    × ((get (codes "metadata") fields >>= parse_metadata json) ≡ some a_deposit.metadata)
    × (get (codes "contract_version") fields ≡ none)
write_deposit_fields_example = write_deposit_fields json json-IsSerde a_deposit (omega arith)

abbrev a_question : PolicyQuery
a_question = record { provider = codes "github"; scope = codes "billing:write" }

write_body-policy_handler_example :
    (v : Text) × (fields : Map Text) × (version : Text) × (json.from_str
        (json.to_string (write_body json (policy_handler a_question)))
      ≡ some v)
    × (parse_policy json v ≡ some (evaluate (codes "github") (codes "billing:write")))
    × (json.as_object v ≡ some fields)
    × ((get (codes "contract_version") fields >>= json.as_str) ≡ some version)
    × (check_version version ≡ ok tt)
write_body-policy_handler_example = write_body-policy_handler json json-IsSerde a_question

abbrev bare_fields : List (Text × Text)
bare_fields =
    (codes "token", json.string (codes "ghs"))
    ∷ (codes "expires_at", json.string (json.time_text 60))
    ∷ []

abbrev bare_answer : Text
bare_answer = json.object bare_fields

bare_answer-IsBare : IsBare json bare_answer (codes "ghs") 60
unfolding from_list insert get lt_text eq_text read_time
bare_answer-IsBare = record {
  fields = from_list bare_fields;
  fields_are = json-IsSerde.as_object-object bare_fields;
  token_is = refl;
  expiry_is = refl;
  no_permissions = refl;
}

abbrev bare_network : Net World
bare_network = record network { text = λ r w. (ok bare_answer, w) }

mint_without_permissions_example :
    (minted : MintedToken ℕ) × (mint_installation_token bare_network tick_clock signer
        (parse_json json tt (parse_token_answer json))
        process.utc_now
        (app_of command (codes "pem"))
        (grant_of command)
        fresh
      ≡ (ok minted, fresh))
    × (minted.token ≡ codes "ghs")
    × (minted.granted_permissions ≡ [])
    × (minted.tier ≡ tier2)
mint_without_permissions_example =
    mint_without_permissions bare_network tick_clock signer json tt process.utc_now
      (app_of command (codes "pem")) (grant_of command) (codes "pem")
      (claims tick_clock (app_of command (codes "pem")) 3).iss bare_answer (codes "ghs") 60
      bare_answer (access_tokens_url 34) fresh fresh fresh refl refl refl refl refl refl
      bare_answer-IsBare
