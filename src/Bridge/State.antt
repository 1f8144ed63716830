-- ===== src/Bridge/State.antt =====
-- The state that the handlers of sentinelmcp/gateway/bridge.py share, what is fixed when they are built,
-- and what the surroundings do during one attempt.
use sentinel_mcp.Prelude.{ℕ, Bool, Option, List, String}
use sentinel_mcp.Float.{Float}
use sentinel_mcp.Json.{Json, Fields}
use sentinel_mcp.Exec.{Exn, Outcome}
use sentinel_mcp.Policy.Models.{PolicyConfig}
use sentinel_mcp.Policy.Schema.{SchemaVerdict}
use sentinel_mcp.Limits.RateLimiter.{RateLimiter}
use sentinel_mcp.Limits.Concurrency.{ConcurrencyLimiter}
use sentinel_mcp.Audit.Redaction.{RedactionMode}
use sentinel_mcp.Audit.Record.{CheckResult}
use sentinel_mcp.Bridge.Results.{CallToolResult}

-- An upstream tool; `other` is its remaining fields.
pub record Tool : Type 0 where
  pub name : String
  pub input_schema : Option Json
  pub other : Json

-- The shared objects: the limiters, the tool cache (`_tools`), the audit log's lines, and what the
-- upstream has been asked: the `tools/list` round trips, and the calls of it that were started.
pub record Gateway : Type 0 where
  pub rate_limiter : RateLimiter
  pub concurrency_limiter : ConcurrencyLimiter
  pub tools : Option (List Tool)
  pub log : List String
  pub fetches : ℕ
  pub forwarded : List (String × Fields)

-- What the program takes from outside its own code: `re.fullmatch`, `repr`, `str.lower` beyond ASCII,
-- `repr` of a finite `float`, and `jsonschema.validate`.
pub record Runtime : Type 0 where
  pub fullmatch : String → String → Bool
  pub repr : String → String
  pub lower_other : ℕ → List ℕ
  pub float_repr : Float → String
  pub validate : Json → Fields → SchemaVerdict

-- The arguments of `make_call_tool_handler` that do not change, and the size of a token (see Limits). A
-- timeout below zero, which `asyncio.wait_for` treats as zero, is zero.
pub record Config : Type 0 where
  pub policy : PolicyConfig
  pub upstream_call_timeout : Option ℕ
  pub redaction_mode : RedactionMode
  pub token : ℕ

-- One write of the audit log: the line is written, or the write raises and the line is lost, or it
-- raises after the line was written, as when the caller is cancelled while the thread writes.
pub data Fate : Type 0 where
  written : Fate
  lost written_but : Exn → Fate

-- The upstream's answer to a call, and how long it takes.
pub record Reply : Type 0 where
  pub duration : ℕ
  pub outcome : Outcome CallToolResult

-- What happens around one attempt: the identifiers drawn, the clocks' readings, how the wait for the
-- cache's lock ends, what `upstream.list_tools()` and `upstream.call_tool` would give, and the fate of
-- each audit write (`written` when the list is used up).
pub record Surroundings : Type 0 where
  pub correlation_id : String
  pub timestamp : String
  pub session_id : Option String
  pub created : ℕ
  pub now : ℕ
  pub lock_wait : Outcome (Unit {0})
  pub listed : Outcome (List Tool)
  pub called : String → Fields → Reply
  pub policy_elapsed : Float
  pub upstream_elapsed : Float
  pub total_elapsed : Float
  pub disk : List Fate

-- One `tools/call` request of an authenticated principal, with what happens around it.
pub record Request : Type 0 where
  pub surroundings : Surroundings
  pub principal : String
  pub tool_name : String
  pub arguments : Fields

-- The local variables of `handle_call_tool` that change.
pub record Locals : Type 0 where
  pub rate_limit_result : CheckResult
  pub schema_result : CheckResult
  pub policy_result : CheckResult
  pub concurrency_result : CheckResult
  pub matched_rule : Option String
  pub policy_latency_ms : Option Float
  pub upstream_latency_ms : Option Float
  pub audit_emitted : Bool
  pub disk : List Fate

pub record Turn : Type 0 where
  pub gateway : Gateway
  pub locals : Locals
