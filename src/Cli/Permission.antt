-- ===== src/Cli/Permission.antt =====
-- What `--permission` accepts.
use custodly.Prelude.{◌≡◌, ◌↔◌, false, ◌∷◌, ◌++◌, ok, Option-cases, inl, inr, is_empty, arith}
use custodly.Text.{Text, has, split_once}
use custodly.Text.Split.{split_once-append, split_once-eq_some}
use custodly.Cli.{parse_permission}

-- A text is accepted as a resource and a level exactly if it is the two around its first colon, and
-- neither is empty.
pub parse_permission_iff :
    (raw resource level : Text)
    → (parse_permission raw ≡ ok (resource, level)) ↔ (
        (raw ≡ resource ++ (b':' ∷ level))
        × (has b':' resource ≡ false)
        × (is_empty resource ≡ false)
        × (is_empty level ≡ false))
unfolding parse_permission
parse_permission_iff raw resource level = (
  λ h. elim (Option-cases (split_once b':' raw)) [
    | inl e ↦ cc (rw e at h)
    | inr ((a, b), e) ↦
        let (cut, first) = split_once-eq_some b':' raw e in
        let k = rw e at h in ground (arith, cut, first)
  ],
  λ (cut, first, r, l). rw (cut, split_once-append b':' resource level first, r, l),
)
