-- ===== src/Unit/Password.antt =====
-- The test of crates/custodly-vault/src/password.rs, in every world.
use custodly.Prelude.{ℕ, [], ◌∷◌, ◌≡◌, ◌<◌, All, length, arith, true}
use custodly.Text.{Text, has}
use custodly.Vault.Host.{Host}
use custodly.Vault.Password.{generate, generated_len, chars}
use custodly.Vault.Keystore.{generate_lem}

IsAscii-of_has : (cs : Text) (c : ℕ) → All (λ d. d < 128) cs → has c cs ≡ true → c < 128
unfolding has
IsAscii-of_has [] c a h = cc
IsAscii-of_has (d ∷ cs) c a h = ground (arith, IsAscii-of_has cs c a.1)

All-IsAscii : (s : Text) → All (λ c. has c chars ≡ true) s → All (λ c. c < 128) s
All-IsAscii [] h = tt
All-IsAscii (c ∷ s) h = (IsAscii-of_has chars c (omega arith) h.0, All-IsAscii s h.1)

module _ (host : Host) (w : host.World) where
  abbrev pub GeneratedPasswordIsTheRightLengthAndCharset : Type 0
  GeneratedPasswordIsTheRightLengthAndCharset =
      (length (generate host w).0 ≡ generated_len) × All (λ c. c < 128) (generate host w).0

  password_passes : GeneratedPasswordIsTheRightLengthAndCharset
  password_passes =
      ((generate_lem host w).0, All-IsAscii (generate host w).0 (generate_lem host w).1)
