-- ===== src/Entry/Path.antt =====
-- Group paths: when two queries resolve to one path.
use custodly.Prelude.{ℕ, ◌≡◌, ◌↔◌, ◌⊎◌, refl, sym, ap, false, [], ◌∷◌, ◌++◌, inl, inr, append_assoc}
use custodly.Text.{Text, has, split_once}
use custodly.Text.Split.{split_once-append}
use custodly.Entry.{SecretQuery, query_group_path, Text}

-- Queries whose projects hold no slash resolve to one path only if they are the same query.
query_group_path-injective :
    (p q : SecretQuery)
    → has b'/' p.project ≡ false
    → has b'/' q.project ≡ false
    → query_group_path p ≡ query_group_path q
    → p ≡ q
unfolding query_group_path
query_group_path-injective p q hp hq e = cc (
  split_once-append b'/' p.project p.label hp,
  split_once-append b'/' q.project q.label hq,
  ap (split_once b'/') e,
)

-- The first part of the label of `q` is the last part of the project of `p`, and they name the same
-- otherwise.
pub record IsMoved (p q : SecretQuery) : Type 0 where
  pub part : Text
  pub project_is : p.project ≡ q.project ++ (b'/' ∷ part)
  pub label_is : q.label ≡ part ++ (b'/' ∷ p.label)

-- Two ways to cut one text at a character: at the same place, or one behind the other.
data Cut (c : ℕ) (a b x y : Text) : Type 0 where
  same : a ≡ x → b ≡ y → Cut c a b x y
  behind : (part : Text) → a ≡ x ++ (c ∷ part) → y ≡ part ++ (c ∷ b) → Cut c a b x y
  before : (part : Text) → x ≡ a ++ (c ∷ part) → b ≡ part ++ (c ∷ y) → Cut c a b x y

Cut-cons : {c : ℕ} {a b x y : Text} (d e : ℕ) → d ≡ e → Cut c a b x y → Cut c (d ∷ a) b (e ∷ x) y
Cut-cons d e h (same i j) = same (cc) j
Cut-cons d e h (behind part i j) = behind part (cc) j
Cut-cons d e h (before part i j) = before part (cc) j

append-Cut : (c : ℕ) (a b x y : Text) → a ++ (c ∷ b) ≡ x ++ (c ∷ y) → Cut c a b x y
append-Cut c [] b [] y h = same refl (cc)
append-Cut c [] b (e ∷ x) y h = before x (cc) (cc)
append-Cut c (d ∷ a) b [] y h = behind a (cc) (cc)
append-Cut c (d ∷ a) b (e ∷ x) y h = Cut-cons d e (cc) (append-Cut c a b x y (cc))

-- A slash may belong to the project or to the label.
IsMoved-query_group_path :
    (p q : SecretQuery) → IsMoved p q → query_group_path p ≡ query_group_path q
unfolding query_group_path
IsMoved-query_group_path p q m =
    rw (m.project_is, m.label_is) (append_assoc q.project (b'/' ∷ m.part) (b'/' ∷ p.label))

-- Two queries resolve to one group path exactly if they are the same query, or a slash stands in the
-- project of one where it stands in the label of the other.
pub query_group_path-eq_iff :
    (p q : SecretQuery)
    → (query_group_path p ≡ query_group_path q) ↔ ((p ≡ q) ⊎ IsMoved p q ⊎ IsMoved q p)
unfolding query_group_path
query_group_path-eq_iff p q = (
  λ h. elim (append-Cut b'/' p.project p.label q.project q.label h) [
    | same i j ↦ inl (cc)
    | behind part i j ↦ inr (inl (record { part = part; project_is = i; label_is = j }))
    | before part i j ↦ inr (inr (record { part = part; project_is = i; label_is = j }))
  ],
  λ s. elim s [
    | inl e ↦ ap query_group_path e
    | inr m ↦ elim m [
      | inl u ↦ IsMoved-query_group_path p q u
      | inr u ↦ sym (IsMoved-query_group_path q p u)
    ]
  ],
)
