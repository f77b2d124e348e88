-- ===== src/Map.antt =====
-- `BTreeMap<String, V>` of the Rust standard library, as a list of entries in the order of its
-- iteration: by key, code point by code point.
pub mod Laws
pub mod Sorted
use custodly.Prelude.{
  ℕ, Bool, true, false, ◌&&◌, ◌||◌, List, [], ◌∷◌, Option, some, none, ◌==◌, ltb, if◌then◌else◌,
}
use custodly.Text.{Text, eq_text}

abbrev pub Map {ℓ} : Type ℓ → Type ℓ
Map V = List (Text × V)

-- The order of strings.
unfoldable pub lt_text : Text → Text → Bool
lt_text s [] = false
lt_text [] (y ∷ t) = true
lt_text (x ∷ s) (y ∷ t) = ltb x y || (x == y && lt_text s t)

module _ {ℓ} {V : Type ℓ} where
  unfoldable pub get : Text → Map V → Option V
  get k [] = none
  get k ((j, v) ∷ m) = if eq_text j k then some v else get k m

  unfoldable pub insert : Text → V → Map V → Map V
  insert k v [] = (k, v) ∷ []
  insert k v ((j, w) ∷ m) =
      let rest = insert k v m in
      if eq_text j k then (k, v) ∷ m else if lt_text k j then (k, v) ∷ (j, w) ∷ m else (j, w) ∷ rest

  -- `collect()`: a later entry of a key replaces an earlier one.
  abbrev insert_all : Map V → List (Text × V) → Map V
  insert_all m [] = m
  insert_all m ((k, v) ∷ es) = insert_all (insert k v m) es

  unfoldable pub from_list : List (Text × V) → Map V
  from_list es = insert_all [] es
