-- ===== src/Wire/Write.antt =====
-- `Serialize` of the wire types, the body of a deposit, and the answers of the routes.
use custodly.Prelude.{[], ◌∷◌, Option, none, some, map}
use custodly.Text.{Text, codes}
use custodly.Contract.{
  AcquiredVia, track1_api, track2_recipe, DepositMetadata, SealedSecret, DepositReceipt,
  PolicyResponse,
}
use custodly.Client.{DepositRequest}
use custodly.Github.{Permissions}
use custodly.Github.Mint.{AccessTokenRequest}
use custodly.Server.{Body, policy, status}
use custodly.Wire.{Serde}

-- `rename_all = "snake_case"`.
unfoldable pub via_name : AcquiredVia → Text
via_name track1_api = codes "track1_api"
via_name track2_recipe = codes "track2_recipe"

module _ {T : Type 0} (s : Serde T) where
  open s use {Value, null, string, number, array, object, time_text}

  abbrev pub text_field : Text → Text → Text × Value
  text_field name text = (name, string text)

  abbrev pub write_option {ℓ} : {A : Type ℓ} → (A → Value) → Option A → Value
  write_option write none = null
  write_option write (some a) = write a

  abbrev pub write_time : T → Value
  write_time t = string (time_text t)

  unfoldable pub write_metadata : DepositMetadata T → Value
  write_metadata m = object (
      text_field (codes "project") m.project
      ∷ text_field (codes "provider") m.provider
      ∷ text_field (codes "scope") m.scope
      ∷ (codes "tier", number m.tier)
      ∷ text_field (codes "acquired_via") (via_name m.acquired_via)
      ∷ (codes "acquired_at", write_time m.acquired_at)
      ∷ (codes "expires_at", write_option write_time m.expires_at)
      ∷ text_field (codes "label") m.label
      ∷ [])

  unfoldable pub write_sealed : SealedSecret → Value
  write_sealed secret = object (
      text_field (codes "ephemeral_public_hex") secret.ephemeral_public_hex
      ∷ text_field (codes "nonce_hex") secret.nonce_hex
      ∷ text_field (codes "ciphertext_hex") secret.ciphertext_hex
      ∷ [])

  unfoldable pub write_receipt : DepositReceipt T → Value
  write_receipt receipt = object (
      text_field (codes "deposit_id") receipt.deposit_id
      ∷ (codes "accepted_at", write_time receipt.accepted_at)
      ∷ text_field (codes "contract_version") receipt.version
      ∷ [])

  unfoldable pub write_policy : PolicyResponse → Value
  write_policy response = object (
      (codes "tier", number response.tier)
      ∷ (codes "requires", array (map string response.requires))
      ∷ [])

  -- The body of a deposit.
  unfoldable pub write_deposit : DepositRequest T → Value
  write_deposit body = object (
      text_field (codes "deposit_id") body.deposit_id
      ∷ (codes "sealed_secret", write_sealed body.sealed_secret)
      ∷ (codes "metadata", write_metadata body.metadata)
      ∷ [])

  -- The answers of the two routes.
  unfoldable pub write_body : Body → Value
  write_body (policy tier requires version) = object (
      (codes "tier", number tier)
      ∷ (codes "requires", array (map string requires))
      ∷ text_field (codes "contract_version") version
      ∷ [])
  write_body (status text version) =
      object (text_field (codes "status") text ∷ text_field (codes "contract_version") version ∷ [])

  abbrev pub permission_field : Text × Text → Text × Value
  permission_field (resource, level) = text_field resource level

  abbrev pub write_permissions : Permissions → Value
  write_permissions permissions = object (map permission_field permissions)

  -- `skip_serializing_if = "Option::is_none"`.
  unfoldable pub write_access_request : AccessTokenRequest → Value
  write_access_request body = elim body.repository_ids [
    | none ↦ object ((codes "permissions", write_permissions body.permissions) ∷ [])
    | some ids ↦ object (
        (codes "repository_ids", array (map number ids))
        ∷ (codes "permissions", write_permissions body.permissions)
        ∷ [])
  ]
