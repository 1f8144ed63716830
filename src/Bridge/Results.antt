-- ===== src/Bridge/Results.antt =====
-- The results that sentinelmcp/gateway/bridge.py builds, with their texts.
pub mod Wordings
use Prim.Native.String
use sentinel_mcp.Prelude.{Bool, true, Option, none, some, List, [], ◌∷◌, String}
use sentinel_mcp.Prelude.Dict.{Dict, put}
use sentinel_mcp.Json.{Json, str}

-- A content block: `TextContent`, or another kind that an upstream sends.
pub data Content : Type 0 where
  text_content : String → Content
  other_content : Json → Content

pub record CallToolResult : Type 0 where
  pub content : List Content
  pub structured_content : Option Json
  pub is_error : Bool
  pub meta : Option (Dict Json)

abbrev pub error_result : String → CallToolResult
error_result text = record {
  content = text_content text ∷ [];
  structured_content = none;
  is_error = true;
  meta = none;
}

infixr 66 ◌+++◌
abbrev ◌+++◌ : String → String → String
s +++ t = String.◌++◌ s t

unfoldable pub denied_result : String → CallToolResult
denied_result tool_name = error_result ("Unknown tool: " +++ tool_name)

unfoldable pub schema_invalid_result : String → String → CallToolResult
schema_invalid_result tool_name reason =
    error_result ("Schema-invalid arguments for " +++ tool_name +++ ": " +++ reason)

unfoldable pub policy_invalid_result : String → String → CallToolResult
policy_invalid_result tool_name reason =
    error_result ("Argument policy violation for " +++ tool_name +++ ": " +++ reason)

unfoldable pub rate_limited_result : String → CallToolResult
rate_limited_result tool_name = error_result ("Rate limit exceeded for " +++ tool_name)

unfoldable pub concurrency_rejected_result : String → CallToolResult
concurrency_rejected_result tool_name =
    error_result ("Concurrency limit exceeded for " +++ tool_name)

unfoldable pub upstream_timeout_result : String → CallToolResult
upstream_timeout_result tool_name = error_result ("Upstream timeout for " +++ tool_name)

unfoldable pub upstream_error_result : String → String → CallToolResult
upstream_error_result tool_name reason =
    error_result ("Upstream error for " +++ tool_name +++ ": " +++ reason)

-- `result.meta or {}`
abbrev entries : Option (Dict Json) → Dict Json
entries none = []
entries (some d) = d

unfoldable pub finalize : String → CallToolResult → CallToolResult
finalize correlation_id result = record result {
  meta = some (put "correlation_id" (str correlation_id) (entries result.meta));
}
