-- ===== src/Unit/Contract.antt =====
-- The tests of crates/custodly-core/src/contract.rs.
use custodly.Prelude.{
  Bool, true, not, ◌&&◌, ◌==◌, ltb, ◌++◌, some, none, [], ◌∷◌, length, ◌>>=◌, arith, ◌≡◌, refl, ok,
  err,
}
use custodly.Wire.Write.{via_name, write_metadata, write_policy}
use custodly.Contract.{
  track2_recipe, DepositMetadata, PolicyResponse, track1_api, contract_version, check_version,
  unsupported_version,
}
use custodly.Text.{Text, codes, eq_text}
use custodly.Wire.{Serde, IsSerde}
use custodly.Wire.Read.{parse_metadata, parse_policy}
use custodly.Wire.RoundTrip.{parse_metadata-write_metadata, parse_policy-write_policy}

abbrev pub CheckVersionAcceptsTheCurrentContractVersion : Type 0
CheckVersionAcceptsTheCurrentContractVersion = check_version contract_version ≡ ok tt

abbrev pub CheckVersionRejectsAnythingElse : Type 0
CheckVersionRejectsAnythingElse =
    check_version (codes "boundary/v2")
    ≡ err (unsupported_version contract_version (codes "boundary/v2"))

versions_pass : CheckVersionAcceptsTheCurrentContractVersion × CheckVersionRejectsAnythingElse
unfolding check_version eq_text
versions_pass = (refl, refl)

-- No quote, no backslash, and nothing below the space.
abbrev is_plain : Text → Bool
is_plain [] = true
is_plain (x ∷ t) = ltb 31 x && (not (x == b'"') && (not (x == 92) && is_plain t))

-- A text that needs no escape is printed between quotes.
record IsQuoting {T : Type 0} (s : Serde T) : Type 0 where
  to_string-string :
      (t : Text) → is_plain t ≡ true → s.to_string (s.string t) ≡ b'"' ∷ (t ++ (b'"' ∷ []))

module _ {T : Type 0} (s : Serde T) where
  abbrev tested_metadata : T → DepositMetadata T
  tested_metadata now = record {
    project = codes "acme";
    provider = codes "github";
    scope = codes "repo:read,pr:write";
    tier = 1;
    acquired_via = track1_api;
    acquired_at = now;
    expires_at = none;
    label = codes "GitHub App install token, pilot repo, read+PR";
  }

  abbrev pub AcquiredViaSerializesAsTheDocumentedSnakeCaseStrings : Type 0
  AcquiredViaSerializesAsTheDocumentedSnakeCaseStrings =
      (s.to_string (s.string (via_name track1_api)) ≡ codes "\"track1_api\"")
      × (s.to_string (s.string (via_name track2_recipe)) ≡ codes "\"track2_recipe\"")

  names_pass : (laws : IsQuoting s) → AcquiredViaSerializesAsTheDocumentedSnakeCaseStrings
  unfolding via_name
  names_pass laws = (laws.to_string-string _ refl, laws.to_string-string _ refl)

  abbrev pub DepositMetadataRoundTripsThroughJson : T → Type 0
  DepositMetadataRoundTripsThroughJson now =
      let json = s.to_string (write_metadata s (tested_metadata now)) in
      (back : DepositMetadata T) × ((s.from_str json >>= parse_metadata s) ≡ some back)
      × (back.provider ≡ codes "github")
      × (back.acquired_via ≡ track1_api)
      × (back.expires_at ≡ none)

  abbrev pub PolicyResponseRoundTrips : Type 0
  PolicyResponseRoundTrips =
      let response : PolicyResponse = record {
        tier = 2;
        requires = codes "onboarding_complete" ∷ codes "gate:human_approval" ∷ [];
      } in
      let json = s.to_string (write_policy s response) in
      (back : PolicyResponse) × ((s.from_str json >>= parse_policy s) ≡ some back)
      × (back.tier ≡ 2)
      × (length back.requires ≡ 2)

  metadata_passes : (laws : IsSerde s) (now : T) → DepositMetadataRoundTripsThroughJson now
  metadata_passes laws now = (
    tested_metadata now,
    rw (laws.from_str-to_string (write_metadata s (tested_metadata now)))
        (parse_metadata-write_metadata s laws (tested_metadata now) (omega arith)),
    refl,
    refl,
    refl,
  )

  response_passes : (laws : IsSerde s) → PolicyResponseRoundTrips
  response_passes laws =
      let response : PolicyResponse = record {
        tier = 2;
        requires = codes "onboarding_complete" ∷ codes "gate:human_approval" ∷ [];
      } in
      (
        response,
        rw (laws.from_str-to_string (write_policy s response))
            (parse_policy-write_policy s laws response (omega arith)),
        refl,
        refl,
      )
