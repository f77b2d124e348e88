-- ===== src/Seal/Aad.antt =====
-- The associated data of a deposit names its project.
use custodly.Prelude.{◌≡◌, ◌++◌, [], ◌∷◌, append_cancel}
use custodly.Text.{Text}
use custodly.Text.Utf8.{as_bytes-injective}
use custodly.Seal.{deposit_aad, aad_text, ingestion_identity_name}
use custodly.Contract.{contract_version}

-- Two projects whose deposits are bound to the same associated data are the same project.
pub deposit_aad-injective : (p q : Text) → deposit_aad p ≡ deposit_aad q → p ≡ q
unfolding deposit_aad
deposit_aad-injective p q h =
    let prefix = contract_version ++ (b'\n' ∷ (ingestion_identity_name ++ (b'\n' ∷ []))) in
    append_cancel prefix p q (as_bytes-injective (aad_text p) (aad_text q) h)
