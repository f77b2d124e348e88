-- ===== src/Prelude/Results.antt =====
-- `Result<A, E>` with `?`, and stateful code that may fail: a state goes in, and a result and the
-- next state come out, also on an error.
use mathlib.Core.Path.{◌≡◌, refl, sym, ap, ◌∙◌}
use mathlib.Core.Logic.{◌⊎◌, inl, inr}
use mathlib.Core.Option.{Option, none, some}

pub data Result {ℓ κ} (E : Type κ) (A : Type ℓ) : Type (ℓ ⊔ κ) where
  ok : A → Result E A
  err : E → Result E A

abbrev pub and_then {ℓ κ μ} :
    {E : Type κ} {A : Type ℓ} {B : Type μ} → Result E A → (A → Result E B) → Result E B
and_then (ok a) f = f a
and_then (err e) f = err e

abbrev pub map_err {ℓ κ μ} :
    {E : Type κ} {F : Type μ} {A : Type ℓ} → (E → F) → Result E A → Result F A
map_err f (ok a) = ok a
map_err f (err e) = err (f e)

abbrev pub ok_or {ℓ κ} : {E : Type κ} {A : Type ℓ} → E → Option A → Result E A
ok_or e none = err e
ok_or e (some a) = ok a

-- `Result::ok`.
abbrev pub to_option {ℓ κ} : {E : Type κ} {A : Type ℓ} → Result E A → Option A
to_option (ok a) = some a
to_option (err e) = none

-- An action on a world `W`.
abbrev pub Io {ℓ} : Type 0 → Type 0 → Type ℓ → Type ℓ
Io W E A = W → Result E A × W

abbrev pub returns {ℓ} : {W E : Type 0} {A : Type ℓ} → A → Io W E A
returns a w = (ok a, w)

abbrev pub fails {ℓ} : {W E : Type 0} {A : Type ℓ} → E → Io W E A
fails e w = (err e, w)

-- One step, and what follows it if it succeeds.
abbrev pub run_next {ℓ κ} :
    {W E : Type 0} {A : Type ℓ} {B : Type κ} → Result E A × W → (A → Io W E B) → Result E B × W
run_next (ok a, w) f = f a w
run_next (err e, w) f = (err e, w)

infixl 5 ◌>>>◌
abbrev pub ◌>>>◌ {ℓ κ} :
    {W E : Type 0} {A : Type ℓ} {B : Type κ} → Io W E A → (A → Io W E B) → Io W E B
◌>>>◌ m f w = run_next (m w) f

abbrev pub convert_io {ℓ} : {W E F : Type 0} {A : Type ℓ} → (E → F) → Io W E A → Io W F A
convert_io f m w = let (r, w') = m w in (map_err f r, w')

pub Result-cases {ℓ κ} :
    {E : Type κ} {A : Type ℓ} (r : Result E A) → ((a : A) × (r ≡ ok a)) ⊎ ((e : E) × (r ≡ err e))
Result-cases (ok a) = inl (a, refl)
Result-cases (err e) = inr (e, refl)

module _ {ℓ κ} {W E : Type 0} {A : Type ℓ} {B : Type κ} where
  -- Inversion of a sequence that succeeds.
  pub run_next-eq_ok :
      (r : Result E A × W) (f : A → Io W E B) (b : B) (w : W)
      → run_next r f ≡ (ok b, w)
      → (a : A) × (v : W) × (r ≡ (ok a, v)) × (f a v ≡ (ok b, w))
  run_next-eq_ok (ok a, v) f b w h = (a, v, refl, h)
  run_next-eq_ok (err e, v) f b w h = cc

  -- Inversion of a sequence that fails: in its first step, or in what follows it.
  pub run_next-fails :
      (r : Result E A × W) (f : A → Io W E B) (e : E) (w : W)
      → run_next r f ≡ (err e, w)
      → (r ≡ (err e, w)) ⊎ ((a : A) × (v : W) × (r ≡ (ok a, v)) × (f a v ≡ (err e, w)))
  run_next-fails (ok a, v) f e w h = inr (a, v, refl, h)
  run_next-fails (err x, v) f e w h = inl (cc)

pub returns_eq :
    {W E A : Type 0} {a b : A} {v w : W}
    → ◌≡◌ {A = Result E A × W} (ok a, v) (ok b, w)
    → (a ≡ b) × (v ≡ w)
returns_eq h = (cc, cc)

pub fails_eq :
    {W E A : Type 0} {e x : E} {v w : W}
    → ◌≡◌ {A = Result E A × W} (err e, v) (err x, w)
    → (e ≡ x) × (v ≡ w)
fails_eq h = (cc, cc)

pub and_then-eq_ok {ℓ κ μ} :
    {E : Type κ} {A : Type ℓ} {B : Type μ} (r : Result E A) (f : A → Result E B) (b : B)
    → and_then r f ≡ ok b
    → (a : A) × (r ≡ ok a) × (f a ≡ ok b)
and_then-eq_ok (ok a) f b h = (a, refl, h)
and_then-eq_ok (err e) f b h = cc

pub map_err-eq_ok {ℓ κ μ} :
    {E : Type κ} {F : Type μ} {A : Type ℓ} (f : E → F) (r : Result E A) (a : A)
    → map_err f r ≡ ok a
    → r ≡ ok a
map_err-eq_ok f (ok b) a h = cc
map_err-eq_ok f (err e) a h = cc

pub run_next-eq_err {ℓ κ} :
    {W E : Type 0} {A : Type ℓ} {B : Type κ} (r : Result E A × W) (f : A → Io W E B) (e : E) (w : W)
    → ((a : A) (v : W) → (b : B) × (u : W) × (f a v ≡ (ok b, u)))
    → run_next r f ≡ (err e, w)
    → r ≡ (err e, w)
run_next-eq_err (ok a, v) f e w total h =
    let (b, u, k) = total a v in cc (ap (λ p. p.0) (sym k ∙ h))
run_next-eq_err (err x, v) f e w total h = cc

pub convert_io-eq_ok {ℓ} :
    {W E F : Type 0} {A : Type ℓ} (f : E → F) (r : Result E A × W) (a : A) (w : W)
    → ◌≡◌ {A = Result F A × W} (map_err f r.0, r.1) (ok a, w)
    → r ≡ (ok a, w)
convert_io-eq_ok f (ok b, v) a w h = cc
convert_io-eq_ok f (err e, v) a w h = cc (ap (λ p. p.0) h)

pub convert_io-eq_err {ℓ} :
    {W E F : Type 0} {A : Type ℓ} (f : E → F) (r : Result E A × W) (e : F) (w : W)
    → ◌≡◌ {A = Result F A × W} (map_err f r.0, r.1) (err e, w)
    → (x : E) × (r ≡ (err x, w)) × (e ≡ f x)
convert_io-eq_err f (ok b, v) e w h = cc (ap (λ p. p.0) h)
convert_io-eq_err f (err x, v) e w h = (x, cc, cc)

pub to_option-eq_some {ℓ κ} :
    {E : Type κ} {A : Type ℓ} (r : Result E A) (a : A) → to_option r ≡ some a → r ≡ ok a
to_option-eq_some (ok b) a h = cc
to_option-eq_some (err e) a h = cc

-- A sequence has a property if its first step has it where it fails, and what follows has it where
-- the first step succeeds.
pub run_next-elim :
    {W E A B : Type 0} (r : Result E A × W) (f : A → Io W E B) (P : W → Type 0)
    → ((e : E) → r ≡ (err e, r.1) → P r.1)
    → ((a : A) → r ≡ (ok a, r.1) → P (f a r.1).1)
    → P (run_next r f).1
run_next-elim (ok a, w) f P h k = k a refl
run_next-elim (err e, w) f P h k = h e refl

-- A step that does nothing to the world.
pub run_next-world :
    {W E A B : Type 0} (r : Result E A × W) (g : A → Result E B)
    → (run_next r (λ a w. (g a, w))).1 ≡ r.1
run_next-world (ok a, w) g = refl
run_next-world (err e, w) g = refl

-- A sequence is the same if what follows its first step is.
pub run_next-same :
    {W E A B : Type 0} (r : Result E A × W) (f g : A → Io W E B)
    → ((a : A) (v : W) → f a v ≡ g a v)
    → run_next r f ≡ run_next r g
run_next-same (ok a, v) f g h = h a v
run_next-same (err e, v) f g h = refl
