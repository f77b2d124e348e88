-- ===== src/Tier/Assess.antt =====
-- `assess_github_scope` against the grants of its pairs: what it accepts, and what it makes of it.
use custodly.Prelude.{◌≡◌, refl, List, [], ◌∷◌, some, All, Option-cases, inl, inr}
use custodly.Text.{Text}
use custodly.Tier.Scope.{Flags, assess_pairs, assess_pair}
use custodly.Tier.Grants.{Grant, IsGrant, IsRecognised, mark, assess_pair-mark, assess_pair-eq_some}

-- One grant for each pair.
abbrev pub AreGrants : List Text → List Grant → Type 0
AreGrants [] [] = Unit
AreGrants (p ∷ ps) (g ∷ gs) = IsGrant p g × AreGrants ps gs
AreGrants _ _ = ⊥

abbrev pub marks : List Grant → Flags → Flags
marks [] f = f
marks (g ∷ gs) f = marks gs (mark g f)

pub assess_pairs-marks :
    (ps : List Text) (gs : List Grant) (f : Flags)
    → AreGrants ps gs
    → All IsRecognised gs
    → assess_pairs ps f ≡ some (marks gs f)
unfolding assess_pairs
assess_pairs-marks [] [] f w k = refl
assess_pairs-marks [] (g ∷ gs) f w k = absurd w
assess_pairs-marks (p ∷ ps) [] f w k = absurd w
assess_pairs-marks (p ∷ ps) (g ∷ gs) f w k =
    rw (assess_pair-mark p g f w.0 k.0) (assess_pairs-marks ps gs (mark g f) w.1 k.1)

pub assess_pairs-eq_some :
    (ps : List Text) (f g : Flags)
    → assess_pairs ps f ≡ some g
    → (gs : List Grant) × AreGrants ps gs × All IsRecognised gs
unfolding assess_pairs
assess_pairs-eq_some [] f g h = ([], tt, tt)
assess_pairs-eq_some (p ∷ ps) f g h = elim (Option-cases (assess_pair p f)) [
  | inl e ↦ cc (rw e at h)
  | inr (k, e) ↦
      let (x, w, r) = assess_pair-eq_some p f k e in
      let (xs, ws, rs) = assess_pairs-eq_some ps k g (rw e at h) in (x ∷ xs, (w, ws), (r, rs))
]
