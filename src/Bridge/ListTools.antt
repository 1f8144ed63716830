-- ===== src/Bridge/ListTools.antt =====
-- `handle_list_tools` of sentinelmcp/gateway/bridge.py.
use sentinel_mcp.Prelude.{List, [], ◌∷◌, String, if◌then◌else◌}
use sentinel_mcp.Exec.{Outcome, Exec, pure, ◌>>=◌}
use sentinel_mcp.Policy.Models.{PolicyConfig}
use sentinel_mcp.Policy.Engine.{is_tool_allowed}
use sentinel_mcp.Identity.Middleware.{Context, current_principal}
use sentinel_mcp.Bridge.State.{Tool, Gateway}
use sentinel_mcp.Bridge.Cache

-- [tool for tool in tools if is_tool_allowed(policy, principal, tool.name)]
unfoldable pub allowed_tools : PolicyConfig → String → List Tool → List Tool
allowed_tools policy principal [] = []
allowed_tools policy principal (tool ∷ tools) =
    let rest = allowed_tools policy principal tools in
    if is_tool_allowed policy principal tool.name then tool ∷ rest else rest

-- An action on the gateway, run inside a request's context.
abbrev pub in_context : {A : Type 0} → Exec Gateway A → Exec (Context Gateway) A
in_context m context = let (r, g) = m context.world in (r, record context { world = g })

unfoldable pub handle_list_tools :
    PolicyConfig
    → (lock_wait : Outcome (Unit {0})) → (listed : Outcome (List Tool))
    → Exec (Context Gateway) (List Tool)
unfolding allowed_tools
handle_list_tools policy lock_wait listed = do
  principal ← current_principal
  tools ← in_context (Cache.get lock_wait listed)
  pure (allowed_tools policy principal tools)
