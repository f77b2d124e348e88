-- ===== src/Map/Laws.antt =====
-- Lookups in a map.
use custodly.Prelude.{◌≡◌, refl, [], ◌∷◌, arith, some, if◌then◌else◌}
use custodly.Text.{Text, eq_text}
use custodly.Text.Equality.{eq_text_iff}
use custodly.Map.{Map, get, insert}

module _ {ℓ} {V : Type ℓ} where
  pub get-insert :
      (q k : Text) (v : V) (m : Map V)
      → get q (insert k v m) ≡ (if eq_text k q then some v else get q m)
  unfolding get insert
  get-insert q k v [] = refl
  get-insert q k v ((j, w) ∷ m) =
      ground (arith, eq_text_iff j k, eq_text_iff k q, eq_text_iff j q, get-insert q k v m)
