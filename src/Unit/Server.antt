-- ===== src/Unit/Server.antt =====
-- The tests of crates/custodly-core/src/server.rs: the query string is given parsed, and success is
-- an answer.
use custodly.Prelude.{◌≡◌, refl, some, none, List, []}
use custodly.Text.{
  Text, codes, trim, trim_start, trim_end, is_whitespace, split, split_once, contains, starts_with,
  eq_text,
}
use custodly.Contract.{contract_version}
use custodly.Tier.{score, as_u8}
use custodly.Tier.Scope.{
  assess_github_scope, assess_pairs, assess_pair, apply_grant, apply_level, apply_resource,
  is_bounded, is_sensitive,
}
use custodly.Policy.{assess, evaluate}
use custodly.Server.{Body, policy, app, policy_handler, health}

abbrev pub PolicyRouteScoresAKnownProviderAndScope : Type 0
PolicyRouteScoresAKnownProviderAndScope =
    app (codes "/v1/boundary/policy")
      (some (record { provider = codes "github"; scope = codes "repo:read" }))
    ≡ some (policy 0 [] contract_version)

abbrev pub PolicyRouteFailsClosedForAnUnknownProvider : Type 0
PolicyRouteFailsClosedForAnUnknownProvider =
    (requires : List Text) × (version : Text) × (app (codes "/v1/boundary/policy")
        (some (record { provider = codes "stripe"; scope = codes "charges:read" }))
      ≡ some (policy 2 requires version))

abbrev pub HealthzReportsOk : Type 0
HealthzReportsOk = (body : Body) × (app (codes "/healthz") none ≡ some body)

routes_pass :
    PolicyRouteScoresAKnownProviderAndScope × PolicyRouteFailsClosedForAnUnknownProvider
    × HealthzReportsOk
unfolding app policy_handler health evaluate assess as_u8 assess_github_scope assess_pairs
    assess_pair apply_grant apply_level apply_resource is_bounded is_sensitive score trim trim_start
    trim_end is_whitespace split split_once contains starts_with eq_text
routes_pass = (refl, (_, _, refl), (_, refl))
