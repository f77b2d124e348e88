-- ===== src/Map/Sorted.antt =====
-- A map's entries are in strictly ascending order of their keys, whatever is inserted.
use custodly.Prelude.{◌≡◌, refl, [], ◌∷◌, arith, List, true, false, Bool-cases, inl, inr}
use custodly.Text.{Text, eq_text}
use custodly.Text.Equality.{eq_text_iff}
use custodly.Map.{Map, insert, insert_all, from_list, lt_text}

lt_text_trans : (a b c : Text) → lt_text a b ≡ true → lt_text b c ≡ true → lt_text a c ≡ true
unfolding lt_text
lt_text_trans a b [] h k = k
lt_text_trans [] b (z ∷ c) h k = refl
lt_text_trans (x ∷ a) [] (z ∷ c) h k = cc
lt_text_trans (x ∷ a) (y ∷ b) (z ∷ c) h k = ground (arith, lt_text_trans a b c)

lt_text_total : (a b : Text) → eq_text a b ≡ false → lt_text b a ≡ false → lt_text a b ≡ true
unfolding lt_text eq_text
lt_text_total [] [] h k = cc
lt_text_total (x ∷ a) [] h k = cc
lt_text_total [] (y ∷ b) h k = refl
lt_text_total (x ∷ a) (y ∷ b) h k = ground (arith, lt_text_total a b)

module _ {ℓ} {V : Type ℓ} where
  abbrev Above : Text → Map V → Type 0
  Above k [] = Unit
  Above k ((j, w) ∷ m) = (lt_text k j ≡ true) × Above k m

  abbrev pub IsSorted : Map V → Type 0
  IsSorted [] = Unit
  IsSorted ((k, v) ∷ m) = Above k m × IsSorted m

  Above-of_lt : (i j : Text) (m : Map V) → lt_text i j ≡ true → Above j m → Above i m
  Above-of_lt i j [] h a = tt
  Above-of_lt i j ((k, v) ∷ m) h a = (lt_text_trans i j k h a.0, Above-of_lt i j m h a.1)

  Above-insert :
      (i k : Text) (v : V) (m : Map V) → lt_text i k ≡ true → Above i m → Above i (insert k v m)
  unfolding insert
  Above-insert i k v [] h a = (h, tt)
  Above-insert i k v ((j, w) ∷ m) h a = elim (Bool-cases (eq_text j k)) [
    | inl e ↦ rw e (h, a.1)
    | inr e ↦ elim (Bool-cases (lt_text k j)) [
      | inl l ↦ rw (e, l) (h, a)
      | inr l ↦ rw (e, l) (a.0, Above-insert i k v m h a.1)
    ]
  ]

  insert-IsSorted : (k : Text) (v : V) (m : Map V) → IsSorted m → IsSorted (insert k v m)
  unfolding insert
  insert-IsSorted k v [] s = (tt, tt)
  insert-IsSorted k v ((j, w) ∷ m) s = elim (Bool-cases (eq_text j k)) [
    | inl e ↦ rw (e, ← (eq_text_iff j k).0 e) s
    | inr e ↦ elim (Bool-cases (lt_text k j)) [
      | inl l ↦ rw (e, l) ((l, Above-of_lt k j m l s.0), s)
      | inr l ↦
          rw (e, l) (Above-insert j k v m (lt_text_total j k e l) s.0, insert-IsSorted k v m s.1)
    ]
  ]

  insert_all-IsSorted : (es : List (Text × V)) (m : Map V) → IsSorted m → IsSorted (insert_all m es)
  insert_all-IsSorted [] m s = s
  insert_all-IsSorted ((k, v) ∷ es) m s =
      insert_all-IsSorted es (insert k v m) (insert-IsSorted k v m s)

  -- What `collect()` builds is in ascending order of keys, so no key occurs twice.
  pub from_list-IsSorted : (es : List (Text × V)) → IsSorted (from_list es)
  unfolding from_list
  from_list-IsSorted es = insert_all-IsSorted es [] tt
