-- ===== src/Tests/Policy.antt =====
-- Policy answers.
use custodly.Prelude.{◌≡◌, ◌≤◌, ◌↔◌, refl, [], ◌∷◌, none}
use custodly.Text.{codes, eq_text, Text}
use custodly.Policy.{assess, evaluate, onboarding_complete, gate_human_approval}
use custodly.Tier.{score, as_u8}
use custodly.Policy.Meaning.{Names, IsBoundedGrant, IsBoundedRead, evaluate_meaning}
use custodly.Policy.Gate.{Asks, evaluate_gate}
use custodly.Policy.Scopes.{Scopes, answer, both, scopes_semilattice}
use Prim.Native.Nat.{max}
use mathlib.Core.Quot

-- The tests of policy.rs.
unknown_provider :
    evaluate (codes "stripe") (codes "charges:read")
    ≡ record { tier = 2; requires = onboarding_complete ∷ gate_human_approval ∷ [] }
unfolding evaluate assess eq_text score as_u8
unknown_provider = refl

evaluate_gate_example :
    let response = evaluate (codes "github") (codes "admin:write") in
    (response.tier ≤ 2)
    × (Asks gate_human_approval response ↔ (response.tier ≡ 2))
    × (Asks onboarding_complete response ↔ (assess (codes "github") (codes "admin:write") ≡ none))
    × (Asks onboarding_complete response → Asks gate_human_approval response)
evaluate_gate_example = evaluate_gate (codes "github") (codes "admin:write")

evaluate_meaning_example :
    let tier = (evaluate (codes "github") (codes "repo:read, pr:write")).tier in
    ((tier ≤ 1) ↔ Names IsBoundedGrant (codes "github") (codes "repo:read, pr:write"))
    × ((tier ≡ 0) ↔ Names IsBoundedRead (codes "github") (codes "repo:read, pr:write"))
evaluate_meaning_example = evaluate_meaning (codes "github") (codes "repo:read, pr:write")

abbrev reading : Scopes
reading = Quot.mk (codes "repo:read")

abbrev writing : Scopes
writing = Quot.mk (codes "pr:write")

abbrev paying : Scopes
paying = Quot.mk (codes "billing:write,repo:read")

scopes_semilattice_example :
    ((s : Text) → answer (codes "github") (Quot.mk s) ≡ evaluate (codes "github") s)
    × (both reading writing ≡ both writing reading)
    × (both reading reading ≡ reading)
    × (both (both reading writing) paying ≡ both reading (both writing paying))
    × ((answer (codes "github") (both reading writing)).tier
        ≡ max (answer (codes "github") reading).tier (answer (codes "github") writing).tier)
scopes_semilattice_example = scopes_semilattice (codes "github") reading writing paying
