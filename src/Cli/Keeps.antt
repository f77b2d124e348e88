-- ===== src/Cli/Keeps.antt =====
-- What the calls into Ferryman leave alone: whatever the effects of the network and of the process
-- leave alone.
use custodly.Prelude.{
  ℕ, Bool, true, false, ◌≡◌, ◌∙◌, refl, Result, ok, err, Io, run_next, convert_io, if◌then◌else◌,
  is_empty,
}
use custodly.Text.{Text}
use custodly.Text.Utf8.{Bytes}
use custodly.Net.{Net, Request}
use custodly.Contract.{DepositReceipt}
use custodly.Seal.{Crypto, hex_decode_32, seal_to, seal_nonce, seal_for_ingestion}
use custodly.Client.{
  ClientError, DepositRequest, Response, read_json, read_receipt, deposit, fetch_ingestion_key,
  requesting, parsing,
}
use custodly.Cli.Mint.{Process}
use custodly.Client

-- The effects of the network and of the process leave a view of the world alone.
pub record IsApart {W T S : Type 0} (net : Net W) (process : Process W T) (look : W → S)
    : Type 1 where
  pub sending : {Body : Type 0} (r : Request Body) (w : W) → look (net.send r w).1 ≡ look w
  pub answering : (r : net.Response) (w : W) → look (net.text r w).1 ≡ look w
  pub draining : (w : W) → look (process.read_to_string w).1 ≡ look w
  pub timing : (w : W) → look (process.utc_now w).1 ≡ look w
  pub drawing : (n : ℕ) (w : W) → look (process.fill_bytes n w).1 ≡ look w
  pub printing : (line : Text) (w : W) → look (process.println line w) ≡ look w

module _ {W S : Type 0} (look : W → S) where
  -- An action leaves the view alone.
  abbrev pub Keeps : {E A : Type 0} → Io W E A → Type 0
  Keeps m = (w : W) → look (m w).1 ≡ look w

  pub run_next-Keeps :
      {E A B : Type 0} (r : Result E A × W) (f : A → Io W E B) (s : S)
      → look r.1 ≡ s
      → ((a : A) → Keeps (f a))
      → look (run_next r f).1 ≡ s
  run_next-Keeps (ok a, w) f s h k = k a w ∙ h
  run_next-Keeps (err e, w) f s h k = h

  pub if-Keeps :
      {E A : Type 0} (b : Bool) (m n : Io W E A) → Keeps m → Keeps n → Keeps (if b then m else n)
  if-Keeps true m n h k = h
  if-Keeps false m n h k = k

  pub if-kept :
      {E A : Type 0} (b : Bool) (x y : Result E A × W) (s : S)
      → look x.1 ≡ s
      → look y.1 ≡ s
      → look (if b then x else y).1 ≡ s
  if-kept true x y s h k = h
  if-kept false x y s h k = k

module _ {W T S : Type 0} (net : Net W) (process : Process W T) (look : W → S)
    (apart : IsApart net process look) where
  read_json-Keeps :
      {A : Type 0} (parse : Text → Result net.RequestError A) (response : net.Response)
      → Keeps look (read_json net parse response)
  unfolding read_json
  read_json-Keeps parse response w =
      run_next-Keeps look (convert_io parsing (net.text response) w) _ (look w)
        (apart.answering response w) (λ body v. refl)

  key-Keeps :
      (parse : Text → Result net.RequestError Response) (url : Text) (response : net.Response)
      → Keeps look (Client.read_key net parse url response)
  unfolding Client.read_key
  key-Keeps parse url response =
      if-Keeps look (net.is_success response) _ _
        (λ w.
          run_next-Keeps look (read_json net parse response w) _ (look w)
            (read_json-Keeps parse response w) (λ body v. refl))
        (λ w. refl)

  pub fetch_ingestion_key-Keeps :
      (parse : Text → Result net.RequestError Response) (base_url project token : Text)
      → Keeps look (fetch_ingestion_key net parse base_url project token)
  unfolding fetch_ingestion_key
  fetch_ingestion_key-Keeps parse base_url project token w =
      run_next-Keeps look _ _ (look w) (apart.sending _ w) (λ response. key-Keeps parse _ response)

  read_receipt-Keeps :
      (parse : Text → Result net.RequestError (DepositReceipt T)) (url : Text)
      (response : net.Response)
      → Keeps look (read_receipt net parse url response)
  unfolding read_receipt
  read_receipt-Keeps parse url response =
      if-Keeps look (net.is_success response) _ _ (read_json-Keeps parse response)
        (λ w. apart.answering response w)

  pub deposit-Keeps :
      (parse : Text → Result net.RequestError (DepositReceipt T)) (base_url project token : Text)
      (body : DepositRequest T)
      → Keeps look (deposit net parse base_url project token body)
  unfolding deposit
  deposit-Keeps parse base_url project token body w =
      run_next-Keeps look _ _ (look w) (apart.sending _ w)
        (λ response. read_receipt-Keeps parse _ response)

  pub seal_for_ingestion-Keeps :
      (crypto : Crypto) (hex : Text) (aad : Bytes) (value : Text)
      → Keeps look (seal_for_ingestion crypto process.fill_bytes hex aad value)
  unfolding seal_for_ingestion seal_to seal_nonce
  seal_for_ingestion-Keeps crypto hex aad value w =
      if-kept look (is_empty value) _ _ (look w) refl (
        run_next-Keeps look (hex_decode_32 crypto hex, w) _ (look w) refl
          (λ public v.
            run_next-Keeps look _ _ (look v) (apart.drawing 32 v) (λ k x. apart.drawing 24 x)))
