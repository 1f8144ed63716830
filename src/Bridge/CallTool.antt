-- ===== src/Bridge/CallTool.antt =====
-- `handle_call_tool` of sentinelmcp/gateway/bridge.py, in the order of its `await`s, with its `try`,
-- `except` and `finally` blocks. `principal` is what `current_principal()` gave; the handler itself, which
-- asks for it outside the `try`, is at the end.
pub mod Exits
pub mod Endings
pub mod Slots
pub mod Forwarding
pub mod Auditing
pub mod Faults
pub mod Replies
pub mod LogFile
use Prim.Native.String
use sentinel_mcp.Prelude.{
  Bool, true, false, Option, none, some, List, [], ◌∷◌, ◌++◌, String, if◌then◌else◌,
}
use sentinel_mcp.Prelude.Dict
use sentinel_mcp.Json.{Fields, end}
use sentinel_mcp.Exec.{
  cancelled_error, timeout_error, error, Outcome, ok, raised, Exec, pure, raise, modify, ◌>>=◌,
  ◌>>◌,
}
use sentinel_mcp.Policy.Models.{ToolPolicy}
use sentinel_mcp.Policy.Engine.{message, resolve_tool_policy, evaluate_argument_policy}
use sentinel_mcp.Policy.Schema.{validate_input_schema}
use sentinel_mcp.Limits.RateLimiter
use sentinel_mcp.Limits.Concurrency
use sentinel_mcp.Audit.Names.{is_sensitive_name}
use sentinel_mcp.Audit.Record.{
  AuditOutcome, rate_limited, policy_denied, schema_rejected, concurrency_rejected,
  upstream_success, upstream_error, upstream_timeout, cancelled, passed, failed, Category,
  AuditRecord, serialize,
}
use sentinel_mcp.Identity.Middleware.{Context, current_principal}
use sentinel_mcp.Bridge.Results.{
  CallToolResult, denied_result, schema_invalid_result, policy_invalid_result, rate_limited_result,
  concurrency_rejected_result, upstream_timeout_result, upstream_error_result, finalize,
}
use sentinel_mcp.Bridge.State.{Tool, Gateway, Runtime, Config, Surroundings, Locals, Turn}
use sentinel_mcp.Bridge.Cache
use sentinel_mcp.Bridge.Turns.{
  find_tool, rule_name, within, placed, initial, set_locals, on_gateway, write, outcome_of,
}

module _ (rt : Runtime) (config : Config) (s : Surroundings) (principal tool_name : String)
    (arguments : Fields) where
  abbrev pub audit_record : AuditOutcome → Bool → Option Category → Locals → AuditRecord
  audit_record outcome attempted category l = record {
    correlation_id = s.correlation_id;
    principal = principal;
    session_id = s.session_id;
    tool_name = tool_name;
    arguments = arguments;
    outcome = outcome;
    matched_rule = l.matched_rule;
    schema_result = l.schema_result;
    policy_result = l.policy_result;
    rate_limit_result = l.rate_limit_result;
    concurrency_result = l.concurrency_result;
    upstream_attempted = attempted;
    upstream_result_category = category;
    policy_latency_ms = l.policy_latency_ms;
    upstream_latency_ms = l.upstream_latency_ms;
    total_latency_ms = s.total_elapsed;
    timestamp = s.timestamp;
  }

  -- The line that is written: the serialized record and a newline.
  unfoldable pub line_of : AuditRecord → String
  line_of r =
      String.◌++◌
        (serialize (is_sensitive_name rt.lower_other) rt.float_repr config.redaction_mode r) "\n"

  -- emit(...)
  unfoldable pub emit : AuditOutcome → Bool → Option Category → Exec Turn (Unit {0})
  unfolding write
  emit outcome attempted category t =
      write (line_of (audit_record outcome attempted category t.locals)) t

  -- A terminal rejection, before the upstream is called.
  unfoldable pub reject : AuditOutcome → CallToolResult → Exec Turn CallToolResult
  unfolding emit
  reject outcome result = do emit outcome false none; pure (finalize s.correlation_id result)

  -- What follows the upstream's answer, whichever it is.
  unfoldable pub conclude : Outcome CallToolResult → Exec Turn CallToolResult
  unfolding emit
  conclude (raised timeout_error) = do
    emit upstream_timeout true (some Category.timeout)
    pure (finalize s.correlation_id (upstream_timeout_result tool_name))
  conclude (raised cancelled_error) = do
    emit cancelled true (some Category.stopped)
    raise cancelled_error
  conclude (raised (error reason)) = do
    emit upstream_error true (some Category.error)
    pure (finalize s.correlation_id (upstream_error_result tool_name reason))
  conclude (ok result) = do
    emit upstream_success true (some Category.success)
    pure (finalize s.correlation_id result)

  -- `upstream.call_tool(tool_name, arguments)`, under the timeout if there is one
  unfoldable pub forward : Exec Turn CallToolResult
  unfolding conclude within
  forward = do
    on_gateway (
        modify (λ g. record g {
          forwarded = placed config.upstream_call_timeout tool_name arguments g.forwarded;
        }))
    set_locals (λ l. record l { upstream_latency_ms = some s.upstream_elapsed })
    conclude (within config.upstream_call_timeout (s.called tool_name arguments))

  -- `async with concurrency_limiter.acquire(principal)`: what was acquired is released however the
  -- block ends.
  unfoldable pub with_slot : (Bool → Exec Turn CallToolResult) → Exec Turn CallToolResult
  with_slot block t =
      let (limiter, acquired) = Concurrency.try_acquire t.gateway.concurrency_limiter principal in
      let (r, t') =
        block acquired
          (record t { gateway = record t.gateway { concurrency_limiter = limiter } }) in
      (
        r,
        if acquired
            then record t' {
              gateway = record t'.gateway {
                concurrency_limiter = Concurrency.release t'.gateway.concurrency_limiter principal;
              };
            }
            else t',
      )

  unfoldable pub execute : Bool → Exec Turn CallToolResult
  unfolding reject forward
  execute acquired =
      if acquired
      then (do set_locals (λ l. record l { concurrency_result = passed }); forward)
      else (do
        set_locals (λ l. record l { concurrency_result = failed })
        reject concurrency_rejected (concurrency_rejected_result tool_name))

  -- The SentinelMCP argument constraints, then the call.
  unfoldable pub check_arguments : ToolPolicy → Exec Turn CallToolResult
  unfolding reject with_slot execute
  check_arguments tool_policy = do
    set_locals (λ l. record l { schema_result = passed; policy_latency_ms = some s.policy_elapsed })
    elim (evaluate_argument_policy rt.fullmatch tool_policy arguments) [
      | some violation ↦ (do
        set_locals (λ l. record l { policy_result = failed })
        reject policy_denied (policy_invalid_result tool_name (message rt.repr violation)))
      | none ↦ (do set_locals (λ l. record l { policy_result = passed }); with_slot execute)
    ]

  -- The upstream's own schema.
  unfoldable pub check_schema : ToolPolicy → Tool → Exec Turn CallToolResult
  unfolding reject check_arguments
  check_schema tool_policy tool =
      elim (validate_input_schema rt.validate tool.input_schema arguments) [
        | some reason ↦ (do
          set_locals
              (λ l. record l { schema_result = failed; policy_latency_ms = some s.policy_elapsed })
          reject schema_rejected (schema_invalid_result tool_name reason))
        | none ↦ check_arguments tool_policy
      ]

  -- Both kinds of "unknown tool".
  unfoldable pub deny_call : Exec Turn CallToolResult
  unfolding reject
  deny_call = do
    set_locals (λ l. record l { policy_result = failed })
    reject policy_denied (denied_result tool_name)

  unfoldable pub look_up : ToolPolicy → List Tool → Exec Turn CallToolResult
  unfolding deny_call check_schema
  look_up tool_policy tools = elim (find_tool tool_name tools) [
    | none ↦ deny_call
    | some tool ↦ check_schema tool_policy tool
  ]

  unfoldable pub authorized : ToolPolicy → Exec Turn CallToolResult
  unfolding look_up
  authorized tool_policy = do
    tools ← on_gateway (Cache.get s.lock_wait s.listed)
    look_up tool_policy tools

  unfoldable pub authorize : Exec Turn CallToolResult
  unfolding deny_call authorized
  authorize = do
    set_locals (λ l. record l {
      rate_limit_result = passed;
      matched_rule = rule_name config.policy principal tool_name;
    })
    elim (resolve_tool_policy config.policy principal tool_name) [
      | none ↦ deny_call
      | some tool_policy ↦ authorized tool_policy
    ]

  -- rate_limiter.try_acquire(principal)
  unfoldable pub take_token : Exec Gateway Bool
  take_token g =
      let (limiter, r) =
        RateLimiter.try_acquire config.token g.rate_limiter principal s.created s.now in
      (r, record g { rate_limiter = limiter })

  -- The body of the outer `try`.
  unfoldable pub pipeline : Exec Turn CallToolResult
  unfolding take_token reject authorize
  pipeline = do
    granted ← on_gateway take_token
    if granted then authorize else reject rate_limited (rate_limited_result tool_name)

  -- The outer `except` clauses: a record if there is none yet, and the exception again.
  unfoldable pub recover : Outcome CallToolResult → Exec Turn CallToolResult
  unfolding emit
  recover (ok result) t = (ok result, t)
  recover (raised e) t =
      if t.locals.audit_emitted
      then (raised e, t)
      else (do emit (outcome_of e) false none; raise e) t

  unfoldable pub attempt : Gateway → Outcome CallToolResult × Gateway
  unfolding pipeline recover
  attempt g =
      let (r, t) = pipeline (record { gateway = g; locals = initial s }) in
      let (r', t') = recover r t in (r', t'.gateway)

abbrev pub or_end : Option Fields → Fields
or_end none = end
or_end (some fs) = fs

unfoldable pub handle_call_tool :
    Runtime
    → Config
    → Surroundings
    → (name : String) → (arguments : Option Fields) → Exec (Context Gateway) CallToolResult
unfolding attempt
handle_call_tool rt config s name arguments context =
    let (r, context') = current_principal context in
    elim r [
      | raised e ↦ (raised e, context')
      | ok principal ↦
          let (result, g) = attempt rt config s principal name (or_end arguments) context'.world in
          (result, record context' { world = g })
    ]
