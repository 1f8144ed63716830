-- ===== src/Bridge/Visibility.antt =====
-- `handle_list_tools` beside the lookup of `handle_call_tool`, of sentinelmcp/gateway/bridge.py.
use sentinel_mcp.Prelude.{
  ◌≡◌, ◌↔◌, refl, sym, ◌∙◌, inl, inr, Bool-cases, none, some, List, [], ◌∷◌, String, if◌then◌else◌,
  arith, eq_iff,
}
use sentinel_mcp.Exec.{Outcome, ok}
use sentinel_mcp.Policy.Models.{ToolPolicy, PolicyConfig}
use sentinel_mcp.Policy.Engine.{resolve_tool_policy, is_tool_allowed}
use sentinel_mcp.Policy.Engine.Authorization.{
  Authorizes, resolve_tool_policy_iff, is_tool_allowed_iff,
}
use sentinel_mcp.Identity.Middleware.{Context, current_principal}
use sentinel_mcp.Bridge.State.{Tool, Gateway}
use sentinel_mcp.Bridge.Cache
use sentinel_mcp.Bridge.ListTools.{allowed_tools, handle_list_tools}
use sentinel_mcp.Bridge.Turns.{find_tool}

find_tool-allowed_tools :
    (policy : PolicyConfig) (principal name : String) (tools : List Tool)
    → find_tool name (allowed_tools policy principal tools)
      ≡ (if is_tool_allowed policy principal name then find_tool name tools else none)
unfolding find_tool allowed_tools
find_tool-allowed_tools policy principal name [] = ground arith
find_tool-allowed_tools policy principal name (t ∷ ts) =
    ground (arith, eq_iff t.name name, find_tool-allowed_tools policy principal name ts)

-- What lets a call of the name get as far as the tool: the call's own lookups of a rule and of the tool
-- succeed, and the rule is one whose effect is `allow`.
pub record IsCallable (policy : PolicyConfig) (principal name : String) (tools : List Tool)
    (tool : Tool) : Type 0 where
  pub rule : ToolPolicy
  pub resolved : resolve_tool_policy policy principal name ≡ some rule
  pub authorized : Authorizes policy principal name rule
  pub found : find_tool name tools ≡ some tool

shown_iff :
    (policy : PolicyConfig) (principal name : String) (tools : List Tool) (tool : Tool)
    → (find_tool name (allowed_tools policy principal tools) ≡ some tool)
      ↔ IsCallable policy principal name tools tool
shown_iff policy principal name tools tool =
    let filtered = find_tool-allowed_tools policy principal name tools in
    (
      (λ e. elim (Bool-cases (is_tool_allowed policy principal name)) [
        | inl lawful ↦
            let (rule, authorized) = (is_tool_allowed_iff policy principal name).0 lawful in
            record {
              rule = rule;
              resolved = (resolve_tool_policy_iff policy principal name rule).1 authorized;
              authorized = authorized;
              found = rw lawful at (sym filtered ∙ e);
            }
        | inr unlawful ↦ cc (rw unlawful at (sym filtered ∙ e))
      ]),
      λ c.
          filtered
          ∙ rw ((is_tool_allowed_iff policy principal name).1 (c.rule, c.authorized)) c.found,
    )

-- An authenticated principal that gets a tool list sees a tool under a name exactly where a call of that
-- name would find a rule and that very tool: the policy's rule for that principal and that tool name
-- has the effect `allow`.
pub handle_list_tools-agrees :
    (policy : PolicyConfig) (lock_wait : Outcome (Unit {0})) (listed : Outcome (List Tool))
    (context : Context Gateway) (principal : String) (tools : List Tool)
    → context.principal_var ≡ some principal
    → (Cache.get lock_wait listed context.world).0 ≡ ok tools
    → (shown : List Tool) × ((handle_list_tools policy lock_wait listed context).0 ≡ ok shown)
      × ((name : String)
          → (tool : Tool)
          → (find_tool name shown ≡ some tool) ↔ IsCallable policy principal name tools tool)
unfolding handle_list_tools current_principal
handle_list_tools-agrees policy lock_wait listed context principal tools authentic had = (
  allowed_tools policy principal tools,
  rw (authentic, had) refl,
  λ name tool. shown_iff policy principal name tools tool,
)
