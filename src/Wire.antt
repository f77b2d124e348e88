-- ===== src/Wire.antt =====
-- The JSON forms of the wire types, as their `Serialize` and `Deserialize` declarations give them:
-- a structure is an object of its fields by name, a list an array, an absent option null, and a
-- variant its name in snake case. `serde_json` and the text of a time are parameters.
pub mod Write
pub mod Read
pub mod RoundTrip
pub mod Messages
pub mod Github
pub mod Deposit
use custodly.Prelude.{ℕ, ◌≡◌, ◌<◌, ◌^◌, Bool, true, false, List, Option, some}
use custodly.Text.{Text}
use custodly.Map.{Map, from_list}

-- `serde_json::Value` with its constructors and accessors, and `chrono`'s form of a time in it. The
-- keys of an object are ordered, as those of a `BTreeMap`.
pub record Serde (DateTime : Type 0) : Type 1 where
  pub Value : Type 0
  pub null : Value
  pub string : Text → Value
  pub number : ℕ → Value
  pub array : List Value → Value
  pub object : List (Text × Value) → Value
  pub is_null : Value → Bool
  pub as_str : Value → Option Text
  pub as_u64 : Value → Option ℕ
  pub as_array : Value → Option (List Value)
  pub as_object : Value → Option (Map Value)
  pub to_string : Value → Text
  -- `from_str(..).ok()`.
  pub from_str : Text → Option Value
  pub time_text : DateTime → Text
  pub text_time : Text → Option DateTime

-- What was built is what the accessors find, and what was printed parses back.
pub record IsSerde {T : Type 0} (s : Serde T) : Type 0 where
  pub null_is : s.is_null s.null ≡ true
  pub string_is_not : (t : Text) → s.is_null (s.string t) ≡ false
  pub as_str-string : (t : Text) → s.as_str (s.string t) ≡ some t
  pub as_u64-number : (n : ℕ) → n < 2 ^ 64 → s.as_u64 (s.number n) ≡ some n
  pub as_array-array : (vs : List s.Value) → s.as_array (s.array vs) ≡ some vs
  pub as_object-object :
      (es : List (Text × s.Value)) → s.as_object (s.object es) ≡ some (from_list es)
  pub from_str-to_string : (v : s.Value) → s.from_str (s.to_string v) ≡ some v
  pub text_time-time_text : (t : T) → s.text_time (s.time_text t) ≡ some t
