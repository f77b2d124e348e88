-- ===== src/Wire/Messages.antt =====
-- The messages that cross the boundary: the body of a deposit, and the answer of the policy route.
use custodly.Prelude.{◌≡◌, ◌<◌, refl, ap, ◌∙◌, none, some, ok, ◌>>=◌, arith}
use custodly.Text.{Text, codes, eq_text}
use custodly.Map.{Map, from_list, insert, get, lt_text}
use custodly.Contract.{contract_version, check_version}
use custodly.Client.{DepositRequest}
use custodly.Policy.{evaluate}
use custodly.Policy.Gate.{evaluate_gate}
use custodly.Server.{PolicyQuery, policy_handler}
use custodly.Wire.{Serde, IsSerde}
use custodly.Wire.Write.{write_deposit, write_body}
use custodly.Wire.Read.{parse_metadata, parse_sealed, parse_policy}
use custodly.Wire.RoundTrip.{
  parse_metadata-write_metadata, parse_sealed-write_sealed, read_u8-number, read_texts-array,
}

module _ {T : Type 0} (s : Serde T) (laws : IsSerde s) where
  -- The body of a deposit, printed and parsed, is an object that has the id, the sealed secret and
  -- the metadata under their names, each of which reads back, and no version of the contract.
  pub write_deposit_fields :
      (body : DepositRequest T)
      → body.metadata.tier < 256
      → (fields : Map s.Value) × ((s.from_str (s.to_string (write_deposit s body)) >>= s.as_object)
          ≡ some fields)
        × ((get (codes "deposit_id") fields >>= s.as_str) ≡ some body.deposit_id)
        × ((get (codes "sealed_secret") fields >>= parse_sealed s) ≡ some body.sealed_secret)
        × ((get (codes "metadata") fields >>= parse_metadata s) ≡ some body.metadata)
        × (get (codes "contract_version") fields ≡ none)
  unfolding write_deposit from_list insert get lt_text eq_text
  write_deposit_fields body small = (
    _,
    ap (λ v. v >>= s.as_object) (laws.from_str-to_string (write_deposit s body))
        ∙ laws.as_object-object _,
    laws.as_str-string body.deposit_id,
    parse_sealed-write_sealed s laws body.sealed_secret,
    parse_metadata-write_metadata s laws body.metadata small,
    refl,
  )

  -- The answer of the policy route to a question, printed and parsed, reads as the policy's answer to
  -- it, and carries a version of the contract that the check accepts.
  pub write_body-policy_handler :
      (q : PolicyQuery)
      → (v : s.Value) × (fields : Map s.Value) × (version : Text) × (s.from_str
            (s.to_string (write_body s (policy_handler q)))
          ≡ some v)
        × (parse_policy s v ≡ some (evaluate q.provider q.scope))
        × (s.as_object v ≡ some fields)
        × ((get (codes "contract_version") fields >>= s.as_str) ≡ some version)
        × (check_version version ≡ ok tt)
  unfolding write_body policy_handler parse_policy from_list insert get lt_text eq_text
      check_version
  write_body-policy_handler q =
      let response = evaluate q.provider q.scope in
      let small : response.tier < 256 = omega (arith, (evaluate_gate q.provider q.scope).0) in
      (
        write_body s (policy_handler q),
        _,
        contract_version,
        laws.from_str-to_string _,
        rw (
          laws.as_object-object _,
          read_u8-number s laws response.tier small,
          read_texts-array s laws response.requires,
        ),
        laws.as_object-object _,
        laws.as_str-string contract_version,
        refl,
      )
