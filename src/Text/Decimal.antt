-- ===== src/Text/Decimal.antt =====
-- `to_string` of an unsigned integer.
use custodly.Prelude.{
  ℕ, zero, suc, ◌+◌, ◌-◌, ◌*◌, ◌/◌, ◌%◌, ◌<◌, ◌≡◌, ◌∙◌, [], ◌∷◌, arith, ltb, if◌then◌else◌,
  Bool-cases, inl, inr, ap,
}
use custodly.Text.{Text}

-- The digits of `n` in front of `acc`.
unfoldable pub digits_onto : ℕ → ℕ → Text → Text
digits_onto zero n acc = acc
digits_onto (suc fuel) n acc =
    let rest = digits_onto fuel (n / 10) ((48 + n % 10) ∷ acc) in
    if ltb n 10 then (48 + n) ∷ acc else rest

-- One digit is written for each unit of fuel at most, and `n` has no more than `n + 1` digits.
unfoldable pub decimal : ℕ → Text
unfolding digits_onto
decimal n = digits_onto (suc n) n []

-- The number that a text of digits stands for, behind the digits read so far.
unfoldable pub value_onto : ℕ → Text → ℕ
value_onto acc [] = acc
value_onto acc (c ∷ s) = value_onto (acc * 10 + (c - 48)) s

value_onto-digits_onto :
    (fuel n : ℕ) (acc : Text) → n < fuel → value_onto 0 (digits_onto fuel n acc) ≡ value_onto n acc
unfolding digits_onto value_onto
value_onto-digits_onto zero n acc h = elim h [ ]
value_onto-digits_onto (suc fuel) n acc h = elim (Bool-cases (ltb n 10)) [
  | inl small ↦ rw small (ap (λ k. value_onto k acc) (omega arith))
  | inr large ↦ rw large (
      value_onto-digits_onto fuel (n / 10) ((48 + n % 10) ∷ acc) (ground arith)
      ∙ ap (λ k. value_onto k acc) (omega arith))
]

-- The digits stand for the number, so the fuel is enough.
pub value_onto-decimal : (n : ℕ) → value_onto 0 (decimal n) ≡ n
unfolding decimal value_onto
value_onto-decimal n = value_onto-digits_onto (suc n) n [] (omega arith)
