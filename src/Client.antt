-- ===== src/Client.antt =====
-- crates/custodly-core/src/client.rs: the two calls into Ferryman. `anyhow` errors are a data type
-- with a constructor for each place.
pub mod Version
use custodly.Prelude.{
  ℕ, Bool, List, [], ◌∷◌, ◌++◌, Option, none, some, Result, ok, err, Io, returns, fails, map_err,
  convert_io, run_next, ◌>>>◌, if◌then◌else◌,
}
use custodly.Text.{Text, codes, eq_text}
use custodly.Contract.{DepositMetadata, DepositReceipt, SealedSecret, contract_version}
use custodly.Net.{Net, Request, get, post}

pub data ClientError (RequestError : Type 0) : Type 0 where
  requesting : (url : Text) → RequestError → ClientError RequestError
  failed : (url : Text) (status : ℕ) (body : Text) → ClientError RequestError
  parsing : RequestError → ClientError RequestError
  wrong_version : (got expected : Text) → ClientError RequestError

-- The answer of the ingestion-key route.
pub record Response : Type 0 where
  pub public_key_hex : Text
  pub version : Text

-- The JSON body of a deposit.
pub record DepositRequest (DateTime : Type 0) : Type 0 where
  pub deposit_id : Text
  pub sealed_secret : SealedSecret
  pub metadata : DepositMetadata DateTime

abbrev pub project_url : Text → Text → Text → Text
project_url base_url project route =
    base_url ++ (codes "/v1/projects/" ++ (project ++ (codes "/boundary/" ++ route)))

abbrev text_or_empty {ℓ} : {E : Type ℓ} → Result E Text → Text
text_or_empty (ok t) = t
text_or_empty (err e) = []

module _ {W : Type 0} (net : Net W) where
  abbrev pub Error : Type 0
  Error = ClientError net.RequestError

  -- `response.json()` with its context.
  unfoldable pub read_json :
      {A : Type 0} → (Text → Result net.RequestError A) → net.Response → Io W Error A
  read_json parse response =
      convert_io parsing (net.text response) >>> λ body w. (map_err parsing (parse body), w)

  unfoldable pub check_response : Response → Result Error Text
  check_response body =
      if eq_text body.version contract_version
      then ok body.public_key_hex
      else err (wrong_version body.version contract_version)

  unfoldable pub read_key :
      (Text → Result net.RequestError Response) → Text → net.Response → Io W Error Text
  read_key parse url response =
      if net.is_success response
      then (read_json parse response >>> λ body w. (check_response body, w))
      else fails (failed url (net.status response) [])

  unfoldable pub fetch_ingestion_key :
      (Text → Result net.RequestError Response) → (base_url project token : Text) → Io W Error Text
  fetch_ingestion_key parse base_url project token =
      let url = project_url base_url project (codes "ingestion-key") in
      convert_io (requesting url) (
        net.send {Body = Unit {0}}
          (record { method = get; url = url; bearer = token; headers = []; body = none }))
      >>> read_key parse url

  module _ {T : Type 0} where
    unfoldable pub read_receipt :
        (Text → Result net.RequestError (DepositReceipt T))
        → Text
        → net.Response
        → Io W Error (DepositReceipt T)
    read_receipt parse url response =
        if net.is_success response then read_json parse response else λ w.
        let (body, w') = net.text response w in
        (err (failed url (net.status response) (text_or_empty body)), w')

    unfoldable pub deposit :
        (Text → Result net.RequestError (DepositReceipt T))
        → (base_url project token : Text) → DepositRequest T
        → Io W Error (DepositReceipt T)
    deposit parse base_url project token body =
        let url = project_url base_url project (codes "deposit") in
        convert_io (requesting url) (
          net.send
            (record { method = post; url = url; bearer = token; headers = []; body = some body }))
        >>> read_receipt parse url
