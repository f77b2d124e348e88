-- ===== src/Tests/Remote.antt =====
-- The calls into GitHub and Ferryman on the small machine, and the sealing.
use custodly.Prelude.{◌≡◌, ◌↔◌, refl, ok, some, none, ◌∷◌, [], ◌++◌, false, is_empty, ℕ, arith}
use custodly.Prelude.Int.{ℤ, pos, ◌-ℤ◌, ◌+ℤ◌}
use custodly.Text.{Text, codes, has, eq_text}
use custodly.Text.Decimal.{value_onto}
use custodly.Text.Utf8.{as_bytes, char_bytes}
use custodly.Chrono.{Chrono, IsClock}
use custodly.Contract.{SealedSecret}
use custodly.Github.{
  AppCredentials, RequestedGrant, MintedToken, verify_no_scope_creep, from_response, verify_entries,
  verify_entry, verify_level, level_rank,
}
use custodly.Github.Jwt.{claims, claims_window, mint_jwt}
use custodly.Github.Mint.{mint_installation_token, read_response, read_token, accept}
use custodly.Github.Gate.{IsVerified, mint_installation_token-IsVerified}
use custodly.Client.{fetch_ingestion_key, read_json, check_response}
use custodly.Client.Version.{Answered, fetch_ingestion_key-Answered}
use custodly.Map.{get}
use custodly.Seal.{seal_for_ingestion, deposit_aad}
use custodly.Seal.Open.{open_sealed}
use custodly.Seal.Live.{IsTotal, seal_for_ingestion_succeeds}
use custodly.Server.{PolicyQuery, Body, app, policy_handler}
use custodly.Cli.{parse_permission}
use custodly.Cli.Permission.{parse_permission_iff}
use custodly.Tests.Vault.{tick_clock}
use custodly.Tests.Machine.{
  fresh, network, signer, plain, plain-IsSound, zero_bytes, zero_bytes-length, answers, process,
  World,
}
use custodly.Client

abbrev seconds : Chrono
seconds = record {
  DateTime = ℤ;
  to_rfc3339 = λ t. [];
  parse = λ s. none;
  timestamp = λ t. t;
  plus = λ t d. t +ℤ pos d;
  minus = λ t d. t -ℤ pos d;
}

seconds-IsClock : IsClock seconds
seconds-IsClock = record { timestamp-plus = λ t d. refl; timestamp-minus = λ t d. refl }

abbrev an_app : AppCredentials
an_app = record { app_id = 12; private_key_pem = codes "pem" }

claims_window_example :
    (pos 1000 -ℤ (claims seconds an_app (pos 1000)).iat ≡ pos 60)
    × ((claims seconds an_app (pos 1000)).exp -ℤ pos 1000 ≡ pos 540)
    × ((claims seconds an_app (pos 1000)).exp -ℤ (claims seconds an_app (pos 1000)).iat ≡ pos 600)
    × (value_onto 0 (claims seconds an_app (pos 1000)).iss ≡ 12)
claims_window_example = claims_window seconds seconds-IsClock an_app (pos 1000)

abbrev a_grant : RequestedGrant
a_grant = record {
  installation_id = 34;
  permissions = (codes "contents", codes "write") ∷ [];
  repository_ids = none;
}

abbrev a_token : MintedToken ℕ
a_token = from_response (record {
  token = codes "ghs";
  expires_at = 60;
  permissions = (codes "contents", codes "write") ∷ [];
})

minted :
    mint_installation_token network tick_clock signer answers.token_response process.utc_now an_app
      a_grant fresh
    ≡ (ok a_token, fresh)
unfolding mint_installation_token mint_jwt read_response read_token accept verify_no_scope_creep
    verify_entries verify_entry verify_level level_rank get eq_text
minted = refl

mint_installation_token-IsVerified_example : IsVerified a_grant a_token
mint_installation_token-IsVerified_example =
    mint_installation_token-IsVerified network tick_clock signer answers.token_response
      process.utc_now an_app a_grant a_token fresh fresh minted

abbrev key : Text
key = plain.public_key []

fetched :
    fetch_ingestion_key network answers.key_response
      (codes "http://f")
      (codes "p")
      (codes "t")
      fresh
    ≡ (ok key, fresh)
unfolding fetch_ingestion_key Client.read_key read_json check_response eq_text
fetched = refl

fetch_ingestion_key-Answered_example :
    Answered network answers.key_response (codes "http://f") (codes "p") (codes "t") key fresh fresh
fetch_ingestion_key-Answered_example =
    fetch_ingestion_key-Answered network answers.key_response (codes "http://f") (codes "p")
      (codes "t") key fresh fresh fetched

abbrev sealed : SealedSecret
sealed = record {
  ephemeral_public_hex = key;
  nonce_hex = (zero_bytes 24 fresh).0;
  ciphertext_hex = as_bytes (codes "s3cret");
}

abbrev a_query : PolicyQuery
a_query = record { provider = codes "github"; scope = codes "repo:read" }

abbrev an_answer : Body
an_answer = policy_handler a_query

answered : app (codes "/v1/boundary/policy") (some a_query) ≡ some an_answer
unfolding app eq_text
answered = refl

parse_permission_iff_example :
    (parse_permission (codes "contents:read") ≡ ok (codes "contents", codes "read")) ↔ (
      (codes "contents:read" ≡ codes "contents" ++ (b':' ∷ codes "read"))
      × (has b':' (codes "contents") ≡ false)
      × (is_empty (codes "contents") ≡ false)
      × (is_empty (codes "read") ≡ false))
parse_permission_iff_example =
    parse_permission_iff (codes "contents:read") (codes "contents") (codes "read")

plain-IsTotal : IsTotal plain
plain-IsTotal = record {
  limit = 100;
  derived = λ salt shared info. (plain.public_key [], refl, refl);
  accepted = λ key len. (key, refl);
  encrypted = λ k nonce aad message len small. (message, refl);
}

seal_for_ingestion_succeeds_example :
    (s : SealedSecret) × (w : World) × (seal_for_ingestion plain zero_bytes
        (plain.hex_encode (plain.public_key []))
        (deposit_aad (codes "p"))
        (codes "s3cret")
        fresh
      ≡ (ok s, w))
    × (open_sealed plain [] s (deposit_aad (codes "p")) ≡ ok (as_bytes (codes "s3cret")))
unfolding as_bytes char_bytes plain-IsTotal
seal_for_ingestion_succeeds_example =
    seal_for_ingestion_succeeds plain plain-IsSound plain-IsTotal zero_bytes zero_bytes-length []
      (deposit_aad (codes "p")) (codes "s3cret") fresh refl (omega arith)
