-- ===== src/Policy/Engine/Authorization.antt =====
-- `resolve_tool_policy` and `is_tool_allowed` of sentinelmcp/policy/engine.py: default deny.
use mathlib.Core.Option.{some-injective}
use sentinel_mcp.Prelude.{
  if◌then◌else◌, ◌≡◌, ◌≢◌, refl, ap, sym, ◌∙◌, ◌↔◌, ◌⊎◌, inl, inr, true, Option, none, some, String,
  arith, eq_iff, eq_refl, Option-cases,
}
use sentinel_mcp.Prelude.Dict.{get, put, get-put}
use sentinel_mcp.Policy.Models.{Effect, allow, deny, ToolPolicy, PrincipalPolicy, PolicyConfig}
use sentinel_mcp.Policy.Engine.{◌>>=◌, allows, resolve_tool_policy, is_tool_allowed}

-- The policy names the principal, and gives it a rule for exactly this tool name whose effect is
-- `allow`.
pub record Authorizes (policy : PolicyConfig) (principal tool_name : String) (rule : ToolPolicy)
    : Type 0 where
  pub account : PrincipalPolicy
  pub named : get principal policy.principals ≡ some account
  pub ruled : get tool_name account.tools ≡ some rule
  pub allowed : rule.effect ≡ allow

pub bind-eq-some {ℓ κ} :
    {A : Type ℓ} {B : Type κ} (o : Option A) (k : A → Option B) {b : B}
    → (o >>= k) ≡ some b
    → (a : A) × (o ≡ some a) × (k a ≡ some b)
bind-eq-some none k e = cc
bind-eq-some (some a) k e = (a, refl, e)

allowed_rule :
    (e : Effect) (t rule : ToolPolicy)
    → (if allows e then some t else none) ≡ some rule
    → (e ≡ allow) × (t ≡ rule)
allowed_rule allow t rule h = (refl, some-injective t rule h)
allowed_rule deny t rule h = cc

resolved :
    (policy : PolicyConfig) (principal tool_name : String) (rule : ToolPolicy)
    → resolve_tool_policy policy principal tool_name ≡ some rule
    → Authorizes policy principal tool_name rule
unfolding resolve_tool_policy
resolved policy principal tool_name rule e =
    let (account, named, e₁) = bind-eq-some (get principal policy.principals) _ e in
    let (found, ruled, e₂) = bind-eq-some (get tool_name account.tools) _ e₁ in
    let (allowed, same) = allowed_rule found.effect found rule e₂ in
    record {
      account = account;
      named = named;
      ruled = ruled ∙ ap some same;
      allowed = ap (λ (t : ToolPolicy). t.effect) (sym same) ∙ allowed;
    }

-- A tool policy is resolved exactly when the policy authorizes the call by it.
pub resolve_tool_policy_iff :
    (policy : PolicyConfig) (principal tool_name : String) (rule : ToolPolicy)
    → (resolve_tool_policy policy principal tool_name ≡ some rule)
      ↔ Authorizes policy principal tool_name rule
unfolding resolve_tool_policy
resolve_tool_policy_iff policy principal tool_name rule =
    (resolved policy principal tool_name rule, λ a. rw (a.named, a.ruled, a.allowed) refl)

-- A call is allowed exactly when some rule authorizes it: an unknown principal, a tool with no rule
-- and a rule with `effect: deny` are all denied.
pub is_tool_allowed_iff :
    (policy : PolicyConfig) (principal tool_name : String)
    → (is_tool_allowed policy principal tool_name ≡ true)
      ↔ ((rule : ToolPolicy) × Authorizes policy principal tool_name rule)
unfolding is_tool_allowed
is_tool_allowed_iff policy principal tool_name = (
  (λ e. elim (Option-cases (resolve_tool_policy policy principal tool_name)) [
    | inl missing ↦ cc (rw missing at e)
    | inr (rule, found) ↦ (rule, resolved policy principal tool_name rule found)
  ]),
  λ (rule, a). rw ((resolve_tool_policy_iff policy principal tool_name rule).1 a) refl,
)

-- `account` with the rule for one tool set, and the policy with that account.
abbrev pub with_rule : PolicyConfig → String → PrincipalPolicy → String → ToolPolicy → PolicyConfig
with_rule policy principal account tool_name rule = record {
  principals =
      put principal (record account { tools = put tool_name rule account.tools }) policy.principals;
}

-- An explicit `effect: deny` for one tool denies that call and changes no other decision, be it for
-- another principal or for another tool.
deny_rule :
    (policy : PolicyConfig) (principal tool_name : String) (account : PrincipalPolicy)
    (rule : ToolPolicy) (other tool : String)
    → get principal policy.principals ≡ some account
    → rule.effect ≡ deny
    → (principal ≢ other) ⊎ (tool_name ≢ tool)
    → (resolve_tool_policy (with_rule policy principal account tool_name rule) principal tool_name
        ≡ none)
      × (resolve_tool_policy (with_rule policy principal account tool_name rule) other tool
          ≡ resolve_tool_policy policy other tool)
unfolding resolve_tool_policy
deny_rule policy principal tool_name account rule other tool named denied differ = (
  rw (get-put, eq_refl, get-put, eq_refl, denied) refl,
  ground (
    arith,
    get-put principal other (record account { tools = put tool_name rule account.tools })
        policy.principals,
    get-put tool_name tool rule account.tools,
    eq_iff principal other,
    eq_iff tool_name tool,
  ),
)
