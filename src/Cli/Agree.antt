-- ===== src/Cli/Agree.antt =====
-- The tier that a deposit states, and the tier that the policy route answers for it.
use custodly.Prelude.{◌≡◌, ◌↔◌, refl, sym, ap, ◌∙◌, List, some, true, ok, false, Any, arith}
use custodly.Text.{Text, codes, eq_text}
use custodly.Text.Equality.{eq_text_refl}
use custodly.Chrono.{Chrono}
use custodly.Contract.{contract_version}
use custodly.Net.{Net}
use custodly.Seal.{Crypto}
use custodly.Tier.{score, as_u8}
use custodly.Tier.Scope.{assess_github_scope}
use custodly.Policy.{assess, evaluate, gate_human_approval}
use custodly.Policy.Gate.{evaluate_gate, is_tier2_iff}
use custodly.Server.{Body, policy, app, policy_handler}
use custodly.Github.{MintedToken, RequestedGrant, from_response}
use custodly.Github.Token.{from_response-tier}
use custodly.Github.Gate.{IsVerified, mint_installation_token-IsVerified}
use custodly.Github.Jwt.{Jwt}
use custodly.Github.Mint.{mint_installation_token}
use custodly.Vault.Host.{Host}
use custodly.Cli.{MintGithub, app_of, grant_of, Option}
use custodly.Cli.Mint.{Process, Parsers, deposit_metadata, needs_ferryman_deposit}

IsVerified-score :
    {T : Type 0} (grant : RequestedGrant) (token : MintedToken T)
    → IsVerified grant token
    → token.tier ≡ score (assess_github_scope token.scope_string)
unfolding from_response
IsVerified-score grant token v = rw (v.described) (
    v.scored
    ∙ sym
        (from_response-tier (record {
          token = token.token;
          expires_at = token.expires_at;
          permissions = token.granted_permissions;
        })).1)

evaluate-github :
    (scope : Text)
    → (evaluate (codes "github") scope).tier ≡ as_u8 (score (assess_github_scope scope))
unfolding evaluate assess
evaluate-github scope = rw (eq_text_refl (codes "github")) refl

-- The policy route's answer to a question about a provider and a scope.
abbrev pub asked : Text → Text → Option Body
asked provider scope =
    app (codes "/v1/boundary/policy") (some (record { provider = provider; scope = scope }))

asked-evaluate :
    (provider scope : Text)
    → asked provider scope
      ≡ some (
          policy (evaluate provider scope).tier (evaluate provider scope).requires contract_version)
unfolding app policy_handler eq_text
asked-evaluate provider scope = refl

module _ (c : Chrono) (host : Host) (net : Net host.World) (j : Jwt) (crypto : Crypto)
    (process : Process host.World c.DateTime) (parsers : Parsers c.DateTime net.RequestError) where
  -- For a token that the minting call returned, the policy route answers a question about the
  -- provider and the scope of its deposit with the tier that the deposit states, and asks for human
  -- approval exactly if the token must leave the machine even when it is for the local user.
  pub deposit_metadata-app :
      (args : MintGithub) (pem : Text) (minted : MintedToken c.DateTime) (now : c.DateTime)
      (w w' : host.World)
      → mint_installation_token net c j parsers.token_response process.utc_now
          (app_of args pem)
          (grant_of args)
          w
        ≡ (ok minted, w')
      → let m = deposit_metadata c host net j crypto process parsers args minted now in
        (requires : List Text) × (asked m.provider m.scope
          ≡ some (policy m.tier requires contract_version))
        × (Any (λ r. r ≡ gate_human_approval) requires
            ↔ (needs_ferryman_deposit minted.tier false ≡ true))
  deposit_metadata-app args pem minted now w w' h =
      let verified =
        mint_installation_token-IsVerified net c j parsers.token_response process.utc_now
          (app_of args pem) (grant_of args) minted w w' h in
      let answer = evaluate (codes "github") minted.scope_string in
      let same : answer.tier ≡ as_u8 minted.tier =
        evaluate-github minted.scope_string
        ∙ ap as_u8 (sym (IsVerified-score (grant_of args) minted verified)) in
      let gate = (evaluate_gate (codes "github") minted.scope_string).1 in
      (
        answer.requires,
        asked-evaluate (codes "github") minted.scope_string
            ∙ ap (λ t. some (policy t answer.requires contract_version)) same,
        (
          λ a. ground (arith, (is_tier2_iff minted.tier).1 (sym same ∙ gate.0 a)),
          λ n. gate.1 (same ∙ (is_tier2_iff minted.tier).0 (ground arith)),
        ),
      )
