-- ===== src/Client/Version.antt =====
-- The version check of the ingestion-key call.
use custodly.Prelude.{
  map_err-eq_ok, [], none, ◌≡◌, ap, Result, ok, run_next-eq_ok, Bool-cases, inl, inr, map_err,
  arith, convert_io, ◌++◌, true, ◌∙◌, convert_io-eq_ok,
}
use custodly.Text.{Text, codes}
use custodly.Text.Equality.{eq_text_iff}
use custodly.Contract.{contract_version}
use custodly.Net.{Net, Request, get}
use custodly.Client.{
  Response, check_response, read_key, read_json, fetch_ingestion_key, requesting, parsing,
  project_url,
}
use custodly.Client

module _ {W : Type 0} (net : Net W) (parse : Text → Result net.RequestError Response) where
  -- The request for the key, as it is sent.
  abbrev pub key_request : (base_url project token : Text) → Request (Unit {0})
  key_request base_url project token = record {
    method = get;
    url = base_url ++ (codes "/v1/projects/" ++ (project ++ codes "/boundary/ingestion-key"));
    bearer = token;
    headers = [];
    body = none;
  }

  -- The response to a successful reading, from the world in which it came to the one after its body
  -- was read, carries a key in this version of the contract.
  pub record Carries (key : Text) (response : net.Response) (came done : W) : Type 0 where
    pub succeeded : net.is_success response ≡ true
    pub body : Text
    pub has_body : net.text response came ≡ (ok body, done)
    pub answer : Response
    pub parsed : parse body ≡ ok answer
    pub current : answer.version ≡ codes "boundary/v1"
    pub key_is : key ≡ answer.public_key_hex

  -- The response that the request from `start` got.
  pub record Answered (base_url project token key : Text) (start done : W) : Type 0 where
    pub response : net.Response
    pub came : W
    pub sent : net.send (key_request base_url project token) start ≡ (ok response, came)
    pub carries : Carries key response came done

  check_response-eq_ok :
      (r : Response) (key : Text)
      → check_response net r ≡ ok key
      → (r.version ≡ contract_version) × (key ≡ r.public_key_hex)
  unfolding check_response
  check_response-eq_ok r key h = ground (arith, eq_text_iff r.version contract_version)

  read_key-Carries :
      (url key : Text) (response : net.Response) (w w' : W)
      → read_key net parse url response w ≡ (ok key, w')
      → Carries key response w w'
  unfolding read_key read_json
  read_key-Carries url key response w w' h = elim (Bool-cases (net.is_success response)) [
    | inl success ↦
        let (answer, v, read, e) =
          run_next-eq_ok (read_json net parse response w) (λ body u. (check_response net body, u))
            key w' (rw success at h) in
        let (body, u, text, k) =
          run_next-eq_ok (convert_io parsing (net.text response) w)
            (λ body v. (map_err parsing (parse body), v)) answer v read in
        let (current, key_is) = check_response-eq_ok answer key (ap (λ p. p.0) e) in
        let at : u ≡ w' = ap (λ p. p.1) k ∙ ap (λ p. p.1) e in
        record {
          succeeded = success;
          body = body;
          has_body =
              convert_io-eq_ok {F = Client.Error net} parsing (net.text response w) body u text
              ∙ ap (λ x. (ok body, x)) at;
          answer = answer;
          parsed = map_err-eq_ok parsing (parse body) answer (ap (λ p. p.0) k);
          current = current;
          key_is = key_is;
        }
    | inr failure ↦ cc (ap (λ p. p.0) (rw failure at h))
  ]

  -- If a key is returned, the request for it, on the ingestion-key route of the project and with the
  -- token, was answered with success, and the body of that response, read to the end, parses as an
  -- answer with version `boundary/v1` and that key.
  pub fetch_ingestion_key-Answered :
      (base_url project token key : Text) (w w' : W)
      → fetch_ingestion_key net parse base_url project token w ≡ (ok key, w')
      → Answered base_url project token key w w'
  unfolding fetch_ingestion_key
  fetch_ingestion_key-Answered base_url project token key w w' h =
      let url = project_url base_url project (codes "ingestion-key") in
      let call = net.send (key_request base_url project token) w in
      let (response, v, sent, e) =
        run_next-eq_ok
          (convert_io (requesting url) (net.send (key_request base_url project token)) w)
          (read_key net parse url) key w' h in
      record {
        response = response;
        came = v;
        sent = convert_io-eq_ok {F = Client.Error net} (requesting url) call response v sent;
        carries = read_key-Carries url key response v w' e;
      }
