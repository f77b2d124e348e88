-- ===== src/Tests/Json.antt =====
-- A small JSON: a value is its own text, a tag and what belongs to it, with lists written item by
-- item.
use custodly.Prelude.{
  ℕ, zero, suc, ◌≡◌, refl, ap, ◌∙◌, Bool, true, false, List, [], ◌∷◌, Option, none, some, ◌==◌,
  if◌then◌else◌, ◌>>=◌,
}
use custodly.Text.{Text}
use custodly.Map.{from_list}
use custodly.Wire.{Serde, IsSerde}

-- Every code behind a 1, and a 0 at the end of each item.
abbrev put_item : Text → Text → Text
put_item [] rest = 0 ∷ rest
put_item (x ∷ item) rest = 1 ∷ x ∷ put_item item rest

abbrev put_items : List Text → Text
put_items [] = []
put_items (item ∷ items) = put_item item (put_items items)

abbrev onto_first : ℕ → List Text → List Text
onto_first x [] = (x ∷ []) ∷ []
onto_first x (item ∷ items) = (x ∷ item) ∷ items

abbrev take_items : Text → List Text
take_items [] = []
take_items (zero ∷ rest) = [] ∷ take_items rest
take_items (suc n ∷ []) = []
take_items (suc n ∷ x ∷ rest) = onto_first x (take_items rest)

take_items-put_item : (item rest : Text) → take_items (put_item item rest) ≡ item ∷ take_items rest
take_items-put_item [] rest = refl
take_items-put_item (x ∷ item) rest = ap (onto_first x) (take_items-put_item item rest)

take_items-put_items : (items : List Text) → take_items (put_items items) ≡ items
take_items-put_items [] = refl
take_items-put_items (item ∷ items) =
    take_items-put_item item (put_items items)
    ∙ ap (λ rest. item ∷ rest) (take_items-put_items items)

abbrev flat : List (Text × Text) → List Text
flat [] = []
flat ((k, v) ∷ es) = k ∷ v ∷ flat es

abbrev pairs : List Text → List (Text × Text)
pairs [] = []
pairs (k ∷ []) = []
pairs (k ∷ v ∷ rest) = (k, v) ∷ pairs rest

pairs-flat : (es : List (Text × Text)) → pairs (flat es) ≡ es
pairs-flat [] = refl
pairs-flat ((k, v) ∷ es) = ap (λ rest. (k, v) ∷ rest) (pairs-flat es)

abbrev is_zero_tag : Text → Bool
is_zero_tag (zero ∷ rest) = true
is_zero_tag v = false

-- What stands behind a tag.
abbrev tagged : ℕ → Text → Option Text
tagged n [] = none
tagged n (m ∷ rest) = if m == n then some rest else none

abbrev first_code : Text → Option ℕ
first_code [] = none
first_code (n ∷ rest) = some n

abbrev pub json : Serde ℕ
json = record {
  Value = Text;
  null = 0 ∷ [];
  string = λ t. 1 ∷ t;
  number = λ n. 2 ∷ n ∷ [];
  array = λ vs. 3 ∷ put_items vs;
  object = λ es. 4 ∷ put_items (flat es);
  is_null = is_zero_tag;
  as_str = tagged 1;
  as_u64 = λ v. tagged 2 v >>= first_code;
  as_array = λ v. tagged 3 v >>= λ rest. some (take_items rest);
  as_object = λ v. tagged 4 v >>= λ rest. some (from_list (pairs (take_items rest)));
  to_string = λ v. v;
  from_str = λ t. some t;
  time_text = λ t. t ∷ [];
  text_time = first_code;
}

pub json-IsSerde : IsSerde json
json-IsSerde = record {
  null_is = refl;
  string_is_not = λ t. refl;
  as_str-string = λ t. refl;
  as_u64-number = λ n h. refl;
  as_array-array = λ vs. ap some (take_items-put_items vs);
  as_object-object = λ es.
      ap (λ items. some (from_list (pairs items))) (take_items-put_items (flat es))
      ∙ ap (λ ps. some (from_list ps)) (pairs-flat es);
  from_str-to_string = λ v. refl;
  text_time-time_text = λ t. refl;
}
