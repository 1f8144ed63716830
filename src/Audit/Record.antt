-- ===== src/Audit/Record.antt =====
-- `AuditOutcome`, `AuditRecord` and `AuditLogger._serialize` of sentinelmcp/telemetry/audit.py. The text
-- of a payload is `dumps` of Json; the file is the list of the lines written.
pub mod Lines
pub mod Schema
use sentinel_mcp.Prelude.{Bool, Option, none, some, List, [], ◌∷◌, String}
use sentinel_mcp.Float.{Float}
use sentinel_mcp.Json.{Json, null, bool, float, str, obj, Fields, end, field}
use sentinel_mcp.Json.Dumps.{dumps}
use sentinel_mcp.Audit.Redaction.{RedactionMode, represent_arguments}

pub data AuditOutcome : Type 0 where
  rate_limited policy_denied schema_rejected concurrency_rejected : AuditOutcome
  upstream_success upstream_error upstream_timeout cancelled internal_error : AuditOutcome

-- `record.outcome.value`
abbrev pub value_of : AuditOutcome → String
value_of rate_limited = "rate_limited"
value_of policy_denied = "policy_denied"
value_of schema_rejected = "schema_rejected"
value_of concurrency_rejected = "concurrency_rejected"
value_of upstream_success = "upstream_success"
value_of upstream_error = "upstream_error"
value_of upstream_timeout = "upstream_timeout"
value_of cancelled = "cancelled"
value_of internal_error = "internal_error"

pub data CheckResult : Type 0 where
  passed failed not_evaluated : CheckResult

abbrev pub check_text : CheckResult → String
check_text passed = "passed"
check_text failed = "failed"
check_text not_evaluated = "not_evaluated"

pub data Category : Type 0 where
  success error timeout stopped : Category

abbrev pub category_text : Category → String
category_text success = "success"
category_text error = "error"
category_text timeout = "timeout"
category_text stopped = "cancelled"

pub record AuditRecord : Type 0 where
  pub correlation_id : String
  pub principal : String
  pub session_id : Option String
  pub tool_name : String
  pub arguments : Fields
  pub outcome : AuditOutcome
  pub matched_rule : Option String
  pub schema_result : CheckResult
  pub policy_result : CheckResult
  pub rate_limit_result : CheckResult
  pub concurrency_result : CheckResult
  pub upstream_attempted : Bool
  pub upstream_result_category : Option Category
  pub policy_latency_ms : Option Float
  pub upstream_latency_ms : Option Float
  pub total_latency_ms : Float
  pub timestamp : String

-- A value, or JSON `null` for `None`.
abbrev or_null {ℓ} : {A : Type ℓ} → (A → Json) → Option A → Json
or_null f none = null
or_null f (some a) = f a

-- `asdict(record)` with `outcome` and `arguments` given anew, in the order of the fields.
abbrev of_entries : List (String × Json) → Fields
of_entries [] = end
of_entries ((k, v) ∷ rest) = field k v (of_entries rest)

module _ (sensitive : String → Bool) where
  pub payload : RedactionMode → AuditRecord → Json
  payload mode r = obj (
      of_entries (
        ("correlation_id", str r.correlation_id)
        ∷ ("principal", str r.principal)
        ∷ ("session_id", or_null str r.session_id)
        ∷ ("tool_name", str r.tool_name)
        ∷ ("arguments", represent_arguments sensitive r.arguments mode)
        ∷ ("outcome", str (value_of r.outcome))
        ∷ ("matched_rule", or_null str r.matched_rule)
        ∷ ("schema_result", str (check_text r.schema_result))
        ∷ ("policy_result", str (check_text r.policy_result))
        ∷ ("rate_limit_result", str (check_text r.rate_limit_result))
        ∷ ("concurrency_result", str (check_text r.concurrency_result))
        ∷ ("upstream_attempted", bool r.upstream_attempted)
        ∷ (
          "upstream_result_category",
          or_null (λ c. str (category_text c)) r.upstream_result_category,
        )
        ∷ ("policy_latency_ms", or_null float r.policy_latency_ms)
        ∷ ("upstream_latency_ms", or_null float r.upstream_latency_ms)
        ∷ ("total_latency_ms", float r.total_latency_ms)
        ∷ ("timestamp", str r.timestamp)
        ∷ []))

  unfoldable pub serialize : (float_repr : Float → String) → RedactionMode → AuditRecord → String
  unfolding payload
  serialize float_repr mode r = dumps float_repr (payload mode r)
