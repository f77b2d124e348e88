-- ===== src/Tests/Machine.antt =====
-- A small machine: a keystore with one slot, a vault with one entry, a network that answers every
-- request, and identity ciphers.
use custodly.Prelude.{
  ℕ, zero, suc, ◌≡◌, refl, sym, ap, true, Option, none, some, List, [], ◌∷◌, ◌++◌, Result, ok, err,
  length, false, ◌∙◌,
}
use custodly.Text.{Text, codes}
use custodly.Text.Utf8.{Bytes}
use custodly.Net.{Net}
use custodly.Seal.{Crypto}
use custodly.Seal.Open.{IsSound}
use custodly.Contract.{contract_version}
use custodly.Github.Jwt.{Jwt}
use custodly.Vault.Host.{Host, Output, IsKeystore}
use custodly.Vault.Store.{Vault}
use custodly.Cli.Mint.{Process, Parsers}

pub record World : Type 0 where
  pub keystore : Option Text
  pub entry : Option (Text × Text)
  pub input : List Text
  pub printed : List Text

abbrev pub fresh : World
fresh = record { keystore = none; entry = none; input = []; printed = [] }

abbrev password_of : Option Text → Result (Unit {0}) Text
password_of none = err tt
password_of (some p) = ok p

abbrev shown : Option (Text × Text) → Output
shown none = record { success = false; stdout = []; stderr = codes "no entry" }
shown (some (secret, notes)) = record {
  success = true;
  stdout = secret ++ (b'\n' ∷ (notes ++ (b'\n' ∷ [])));
  stderr = [];
}

abbrev done : Output
done = record { success = true; stdout = []; stderr = [] }

abbrev newest : List Text → Text
newest [] = []
newest (l ∷ ls) = l

-- Seven arguments are an `add`, nine a `show`.
abbrev execute : List Text → World → Result (Unit {0}) Output × World
execute (a ∷ b ∷ c ∷ d ∷ notes ∷ db ∷ path ∷ []) w =
    (ok done, record w { entry = some (newest w.input, notes) })
execute (a ∷ b ∷ c ∷ d ∷ e ∷ f ∷ g ∷ db ∷ path ∷ []) w = (ok (shown w.entry), w)
execute _ w = (ok done, w)

abbrev pub machine : Host
machine = record {
  World = World;
  IoError = Unit;
  KeyringError = Unit;
  KeyringEntry = Unit;
  Child = List Text;
  exists = λ path w. true;
  spawn = λ path args w. (ok args, w);
  write_line = λ child line w. (ok tt, record w { input = line ∷ w.input });
  wait_with_output = execute;
  from_utf8_lossy = λ bytes. bytes;
  keyring_entry = λ service name. ok tt;
  get_password = λ e w. (password_of w.keystore, w);
  set_password = λ e p w. (ok tt, record w { keystore = some p });
  is_no_entry = λ e. true;
  random_range = λ n h w. ((0, h), w);
}

pub machine-IsKeystore : IsKeystore machine
machine-IsKeystore = record {
  get-set_password = λ e p w w' h. rw (← ap (λ r. r.1) h) refl;
  get-get_password =
      λ e p w w' h. ap (λ v. (password_of v.keystore, v)) (sym (ap (λ r. r.1) h)) ∙ h;
}

abbrev pub a_vault : Vault
a_vault = record { cli_path = codes "/bin/kp"; db_path = codes "/db"; keyring_name = codes "main" }

-- A response is the URL that was asked for.
abbrev pub network : Net World
network = record {
  RequestError = Unit;
  Response = Text;
  send = λ {Body} r w. (ok r.url, w);
  is_success = λ r. true;
  status = λ r. 200;
  text = λ r w. (ok r, w);
}

abbrev pub signer : Jwt
signer = record {
  JwtError = Unit;
  EncodingKey = Text;
  from_rsa_pem = λ pem. ok pem;
  encode = λ claims key. ok claims.iss;
}

abbrev zeros : ℕ → Bytes
zeros zero = []
zeros (suc n) = 0 ∷ zeros n

length-zeros : (n : ℕ) → length (zeros n) ≡ n
length-zeros zero = refl
length-zeros (suc n) = ap suc (length-zeros n)

abbrev pub plain : Crypto
plain = record {
  Cipher = Bytes;
  hex_decode = λ s. some s;
  hex_encode = λ b. b;
  public_key = λ secret. zeros 32;
  diffie_hellman = λ secret public. [];
  hkdf_sha256 = λ salt shared info. some (zeros 32);
  new_from_slice = λ key. some key;
  encrypt = λ k nonce aad message. some message;
  decrypt = λ k nonce aad sealed. some sealed;
}

pub plain-IsSound : IsSound plain
plain-IsSound = record {
  decode-encode = λ b. refl;
  exchange = λ a b. refl;
  length-public_key = λ a. refl;
  decrypt-encrypt = λ k nonce aad message sealed h. sym h;
}

abbrev pub zero_bytes : ℕ → World → Bytes × World
zero_bytes n w = (zeros n, w)

pub zero_bytes-length : (n : ℕ) (w : World) → length (zero_bytes n w).0 ≡ n
zero_bytes-length n w = length-zeros n

abbrev pub process : Process World ℕ
process = record {
  StdinError = Unit;
  read_to_string = λ w. (ok (codes "pem"), w);
  utc_now = λ w. (3, w);
  fill_bytes = zero_bytes;
  println = λ line w. record w { printed = line ∷ w.printed };
  format_compact = λ t. codes "T";
}

abbrev pub answers : Parsers ℕ (Unit {0})
answers = record {
  token_response = λ body. ok (record {
    token = codes "ghs";
    expires_at = 60;
    permissions = (codes "contents", codes "write") ∷ [];
  });
  key_response = λ body. ok (record { public_key_hex = zeros 32; version = contract_version });
  receipt =
      λ body. ok (record { deposit_id = codes "T"; accepted_at = 3; version = contract_version });
}
