-- ===== src/Server.antt =====
-- crates/custodly-core/src/server.rs: the two routes. `axum` parses the query string and sends the
-- body; the handlers are functions.
use custodly.Prelude.{ℕ, List, ◌≡◌, Option, none, some, if◌then◌else◌, arith}
use custodly.Text.{Text, codes, eq_text}
use custodly.Contract.{contract_version}
use custodly.Policy.{evaluate}
use mathlib.Core.Option

pub record PolicyQuery : Type 0 where
  pub provider : Text
  pub scope : Text

-- The fields of the two JSON answers.
pub data Body : Type 0 where
  policy : (tier : ℕ) (requires : List Text) (version : Text) → Body
  status : (text version : Text) → Body

unfoldable pub policy_handler : PolicyQuery → Body
policy_handler q =
    let response = evaluate q.provider q.scope in
    policy response.tier response.requires contract_version

unfoldable pub health : Body
health = status (codes "ok") contract_version

-- `Router::new()`: what a GET of a path answers; `none` is not found, and a policy request without
-- its query does not reach the handler.
unfoldable pub app : Text → Option PolicyQuery → Option Body
app path query =
    if eq_text path (codes "/healthz")
    then some health
    else if eq_text path (codes "/v1/boundary/policy")
    then Option.map policy_handler query
    else none

-- Every answer carries the contract's version.
abbrev pub version_of : Body → Text
version_of (policy tier requires version) = version
version_of (status text version) = version

app-version :
    (path : Text) (query : Option PolicyQuery) (body : Body)
    → app path query ≡ some body
    → version_of body ≡ contract_version
unfolding app policy_handler health
app-version path none body h = ground arith
app-version path (some q) body h = ground arith
