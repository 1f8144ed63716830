-- ===== src/Bridge/Turns.antt =====
-- The parts of `handle_call_tool` of sentinelmcp/gateway/bridge.py that no parameter of the request
-- enters: its local variables, one write of the audit log, the lookups and the timeout.
use sentinel_mcp.Prelude.{
  ℕ, Bool, true, false, Option, none, some, List, [], ◌∷◌, ◌++◌, String, str_eq, is_some, ltb,
  if◌then◌else◌,
}
use sentinel_mcp.Prelude.Dict
use sentinel_mcp.Json.{Fields}
use sentinel_mcp.Exec.{Exn, cancelled_error, timeout_error, Outcome, ok, raised, Exec}
use sentinel_mcp.Policy.Models.{PolicyConfig}
use sentinel_mcp.Audit.Record.{AuditOutcome, cancelled, internal_error, failed, not_evaluated}
use sentinel_mcp.Bridge.Results.{CallToolResult}
use sentinel_mcp.Bridge.State.{
  Tool, Gateway, written, lost, written_but, Reply, Surroundings, Locals, Turn,
}

-- next((t for t in upstream_tools if t.name == tool_name), None)
unfoldable pub find_tool : String → List Tool → Option Tool
find_tool tool_name [] = none
find_tool tool_name (t ∷ ts) = if str_eq t.name tool_name then some t else find_tool tool_name ts

-- Whether the principal has a rule for the tool, of either effect.
unfoldable pub rule_name : PolicyConfig → String → String → Option String
rule_name policy principal tool_name = elim (Dict.get principal policy.principals) [
  | none ↦ none
  | some account ↦ if is_some (Dict.get tool_name account.tools) then some tool_name else none
]

-- `asyncio.wait_for`: an answer that takes the whole timeout or longer is a `TimeoutError`.
unfoldable pub within : Option ℕ → Reply → Outcome CallToolResult
within none reply = reply.outcome
within (some timeout) reply =
    if ltb reply.duration timeout then reply.outcome else raised timeout_error

-- Whether the call of the upstream is started: with a timeout that is not above zero, `asyncio.wait_for`
-- cancels it before its first step.
abbrev pub starts : Option ℕ → Bool
starts none = true
starts (some timeout) = ltb 0 timeout

-- What the upstream has got, once the call of it was made under the timeout.
abbrev pub placed : Option ℕ → String → Fields → List (String × Fields) → List (String × Fields)
placed timeout tool_name arguments calls =
    if starts timeout then calls ++ (tool_name, arguments) ∷ [] else calls

-- The variables at the start of an attempt.
abbrev pub initial : Surroundings → Locals
initial s = record {
  rate_limit_result = failed;
  schema_result = not_evaluated;
  policy_result = not_evaluated;
  concurrency_result = not_evaluated;
  matched_rule = none;
  policy_latency_ms = none;
  upstream_latency_ms = none;
  audit_emitted = false;
  disk = s.disk;
}

abbrev pub set_locals : (Locals → Locals) → Exec Turn (Unit {0})
set_locals f t = (ok tt, record t { locals = f t.locals })

-- An action on the gateway alone.
abbrev pub on_gateway : {A : Type 0} → Exec Gateway A → Exec Turn A
on_gateway m t = let (r, g) = m t.gateway in (r, record t { gateway = g })

abbrev pub append_line : String → Gateway → Gateway
append_line line g = record g { log = g.log ++ line ∷ [] }

-- `audit_logger.emit(...)`, and `audit_emitted = True` after it.
unfoldable pub write : String → Exec Turn (Unit {0})
write line t = elim t.locals.disk [
  | [] ↦ (
    ok tt,
    record {
      gateway = append_line line t.gateway;
      locals = record t.locals { audit_emitted = true };
    },
  )
  | fate ∷ rest ↦ elim fate [
    | written ↦ (
      ok tt,
      record {
        gateway = append_line line t.gateway;
        locals = record t.locals { audit_emitted = true; disk = rest };
      },
    )
    | lost e ↦ (raised e, record t { locals = record t.locals { disk = rest } })
    | written_but e ↦ (
      raised e,
      record { gateway = append_line line t.gateway; locals = record t.locals { disk = rest } },
    )
  ]
]

-- The outcome that the outer `except` clauses record.
abbrev pub outcome_of : Exn → AuditOutcome
outcome_of cancelled_error = cancelled
outcome_of _ = internal_error
