-- ===== src/Github/Token.antt =====
-- The tier of a minted token, from the permissions that GitHub granted.
use custodly.Prelude.{◌≡◌, refl, ◌∙◌, ap, [], ◌∷◌, map}
use custodly.Text.{Text, join, trim, trim_start, trim_end}
use custodly.Tier.{Tier, tier2, score}
use custodly.Tier.Order.{max_tier}
use custodly.Tier.Scope.{assess_github_scope}
use custodly.Tier.Widen.{score-append}
use custodly.Github.{Permissions, InstallationTokenResponse, from_response, scope_of, grant_text}

-- The tier of one permission as a scope of its own.
abbrev pub permission_tier : Text × Text → Tier
permission_tier p = score (assess_github_scope (grant_text p))

-- The highest tier of a list of permissions; no permission at all is not classified.
abbrev pub highest_tier : Permissions → Tier
highest_tier [] = tier2
highest_tier (p ∷ []) = permission_tier p
highest_tier (p ∷ q ∷ ps) = max_tier (permission_tier p) (highest_tier (q ∷ ps))

score_nothing : score (assess_github_scope []) ≡ tier2
unfolding score assess_github_scope trim trim_start trim_end
score_nothing = refl

score-scope_of : (ps : Permissions) → score (assess_github_scope (scope_of ps)) ≡ highest_tier ps
unfolding scope_of join
score-scope_of [] = score_nothing
score-scope_of (p ∷ []) = refl
score-scope_of (p ∷ q ∷ ps) =
    score-append (grant_text p) (join (b',' ∷ []) (map grant_text (q ∷ ps)))
    ∙ ap (max_tier (permission_tier p)) (score-scope_of (q ∷ ps))

-- A minted token carries the granted permissions unchanged, and its tier is the highest of theirs:
-- tier 2 if none was granted.
pub from_response-tier :
    {T : Type 0} (resp : InstallationTokenResponse T)
    → let token = from_response resp in
      (token.granted_permissions ≡ resp.permissions) × (token.tier ≡ highest_tier resp.permissions)
unfolding from_response
from_response-tier resp = (refl, score-scope_of resp.permissions)
