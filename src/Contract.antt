-- ===== src/Contract.antt =====
-- crates/custodly-core/src/contract.rs: the wire types of `boundary/v1` and the version check. The
-- time type of `chrono` is a parameter.
use custodly.Prelude.{ℕ, List, Option, if◌then◌else◌, Result, ok, err}
use custodly.Text.{Text, codes, eq_text}

-- `CONTRACT_VERSION`.
abbrev pub contract_version : Text
contract_version = codes "boundary/v1"

pub data ContractError : Type 0 where
  unsupported_version : (expected got : Text) → ContractError

unfoldable pub check_version : Text → Result ContractError (Unit {0})
check_version received =
    if eq_text received contract_version
    then ok tt
    else err (unsupported_version contract_version received)

pub data AcquiredVia : Type 0 where
  track1_api track2_recipe : AcquiredVia

pub record DepositMetadata (DateTime : Type 0) : Type 0 where
  pub project : Text
  pub provider : Text
  pub scope : Text
  pub tier : ℕ
  pub acquired_via : AcquiredVia
  pub acquired_at : DateTime
  pub expires_at : Option DateTime
  pub label : Text

pub record SealedSecret : Type 0 where
  pub ephemeral_public_hex : Text
  pub nonce_hex : Text
  pub ciphertext_hex : Text

pub record DepositReceipt (DateTime : Type 0) : Type 0 where
  pub deposit_id : Text
  pub accepted_at : DateTime
  pub version : Text

abbrev pub ContractRequirement : Type 0
ContractRequirement = Text

pub record PolicyResponse : Type 0 where
  pub tier : ℕ
  pub requires : List ContractRequirement
