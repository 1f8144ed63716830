-- ===== src/Bridge/CallTool/Exits.antt =====
-- The ways through `handle_call_tool`: what was found on the way, and which `emit` it ends with.
pub mod Reached
use sentinel_mcp.Prelude.{◌≡◌, Bool, true, false, none, some, List, [], ◌∷◌, ◌++◌, String}
use sentinel_mcp.Json.{Fields}
use sentinel_mcp.Exec.{Exn, Outcome, ok, raised}
use sentinel_mcp.Policy.Models.{ToolPolicy}
use sentinel_mcp.Policy.Engine.{Violation, message, resolve_tool_policy, evaluate_argument_policy}
use sentinel_mcp.Policy.Schema.{validate_input_schema}
use sentinel_mcp.Limits.RateLimiter
use sentinel_mcp.Limits.RateLimiter.{RateLimiter}
use sentinel_mcp.Limits.Concurrency
use sentinel_mcp.Limits.Concurrency.{ConcurrencyLimiter}
use sentinel_mcp.Audit.Record.{
  AuditOutcome, rate_limited, policy_denied, schema_rejected, concurrency_rejected, passed, failed,
}
use sentinel_mcp.Bridge.Results.{
  CallToolResult, denied_result, schema_invalid_result, policy_invalid_result, rate_limited_result,
  concurrency_rejected_result,
}
use sentinel_mcp.Bridge.State.{Tool, Gateway, Runtime, Config, Surroundings, Locals, Turn}
use sentinel_mcp.Bridge.Cache
use sentinel_mcp.Bridge.Turns.{find_tool, rule_name, within, placed, initial}
use sentinel_mcp.Bridge.CallTool.{reject, conclude}

module _ (rt : Runtime) (config : Config) (s : Surroundings) (principal tool_name : String)
    (arguments : Fields) (g : Gateway) where
  -- The rate limiter's answer, and the gateway after it.
  abbrev pub token_taken : RateLimiter × Outcome Bool
  token_taken = RateLimiter.try_acquire config.token g.rate_limiter principal s.created s.now

  abbrev pub limited_gateway : Gateway
  limited_gateway = record g { rate_limiter = token_taken.0 }

  -- The tool list, and the gateway after it was asked for.
  abbrev pub listing : Outcome (List Tool) × Gateway
  listing = Cache.get s.lock_wait s.listed limited_gateway

  abbrev pub slot : ConcurrencyLimiter × Bool
  slot = Concurrency.try_acquire listing.1.concurrency_limiter principal

  abbrev pub rate_passed : Locals
  rate_passed = record (initial s) {
    rate_limit_result = passed;
    matched_rule = rule_name config.policy principal tool_name;
  }

  abbrev pub arguments_judged : Locals
  arguments_judged = record rate_passed {
    schema_result = passed;
    policy_latency_ms = some s.policy_elapsed;
  }

  abbrev pub arguments_passed : Locals
  arguments_passed = record arguments_judged { policy_result = passed }

  -- The policy has an `allow` rule for the call, and the tool list was had.
  pub record Listed (rule : ToolPolicy) (tools : List Tool) : Type 0 where
    pub granted : token_taken.1 ≡ ok true
    pub resolved : resolve_tool_policy config.policy principal tool_name ≡ some rule
    pub had : listing.0 ≡ ok tools

  -- The upstream has the tool, and its schema accepts the arguments.
  pub record Schematic (rule : ToolPolicy) : Type 0 where
    pub tools : List Tool
    pub tool : Tool
    pub listed : Listed rule tools
    pub found : find_tool tool_name tools ≡ some tool
    pub conforming : validate_input_schema rt.validate tool.input_schema arguments ≡ none

  -- Every check passed.
  pub record Cleared : Type 0 where
    pub rule : ToolPolicy
    pub schematic : Schematic rule
    pub satisfied : evaluate_argument_policy rt.fullmatch rule arguments ≡ none
    pub slotted : slot.1 ≡ true

  -- An exception before there is a verdict: of the limiter, or of the tool list.
  pub data Crash : Exn → Gateway → Locals → Type 0 where
    limiter_failed : {e : Exn} → token_taken.1 ≡ raised e → Crash e limited_gateway (initial s)
    listing_failed :
        {e : Exn} (rule : ToolPolicy)
        → token_taken.1 ≡ ok true
        → resolve_tool_policy config.policy principal tool_name ≡ some rule
        → listing.0 ≡ raised e
        → Crash e listing.1 rate_passed

  -- A rejection, with the outcome that it records and the result that it returns.
  pub data Rejection : AuditOutcome → CallToolResult → Gateway → Locals → Type 0 where
    limited :
        token_taken.1 ≡ ok false
        → Rejection rate_limited (rate_limited_result tool_name) limited_gateway (initial s)
    no_rule :
        token_taken.1 ≡ ok true
        → resolve_tool_policy config.policy principal tool_name ≡ none
        → Rejection policy_denied
            (denied_result tool_name)
            limited_gateway
            (record rate_passed { policy_result = failed })
    no_tool :
        (rule : ToolPolicy) (tools : List Tool)
        → Listed rule tools
        → find_tool tool_name tools ≡ none
        → Rejection policy_denied
            (denied_result tool_name)
            listing.1
            (record rate_passed { policy_result = failed })
    bad_schema :
        (rule : ToolPolicy) (tools : List Tool) (tool : Tool) (reason : String)
        → Listed rule tools
        → find_tool tool_name tools ≡ some tool
        → validate_input_schema rt.validate tool.input_schema arguments ≡ some reason
        → Rejection schema_rejected
            (schema_invalid_result tool_name reason)
            listing.1
            (record rate_passed {
              schema_result = failed;
              policy_latency_ms = some s.policy_elapsed;
            })
    bad_arguments :
        (rule : ToolPolicy) (violation : Violation)
        → Schematic rule
        → evaluate_argument_policy rt.fullmatch rule arguments ≡ some violation
        → Rejection policy_denied
            (policy_invalid_result tool_name (message rt.repr violation))
            listing.1
            (record arguments_judged { policy_result = failed })
    busy :
        (rule : ToolPolicy)
        → Schematic rule
        → evaluate_argument_policy rt.fullmatch rule arguments ≡ none
        → slot.1 ≡ false
        → Rejection concurrency_rejected
            (concurrency_rejected_result tool_name)
            (record listing.1 { concurrency_limiter = slot.0 })
            (record arguments_passed { concurrency_result = failed })

  -- The turn in which the upstream has answered, and the answer.
  abbrev pub answered_turn : Turn
  answered_turn = record {
    gateway = record listing.1 {
      concurrency_limiter = slot.0;
      forwarded = placed config.upstream_call_timeout tool_name arguments listing.1.forwarded;
    };
    locals = record arguments_passed {
      concurrency_result = passed;
      upstream_latency_ms = some s.upstream_elapsed;
    };
  }

  abbrev pub answer : Outcome CallToolResult
  answer = within config.upstream_call_timeout (s.called tool_name arguments)

  -- The slot is given back.
  abbrev pub released : Turn → Turn
  released t = record t {
    gateway = record t.gateway {
      concurrency_limiter = Concurrency.release t.gateway.concurrency_limiter principal;
    };
  }

  pub data Exit (r : Outcome CallToolResult × Turn) : Type 0 where
    crashed :
        (e : Exn) (g' : Gateway) (l : Locals)
        → Crash e g' l
        → r ≡ (raised e, record { gateway = g'; locals = l })
        → Exit r
    rejected :
        (outcome : AuditOutcome) (result : CallToolResult) (g' : Gateway) (l : Locals)
        → Rejection outcome result g' l
        → r
          ≡ reject rt config s principal tool_name arguments outcome result
              (record { gateway = g'; locals = l })
        → Exit r
    executed :
        Cleared
        → r ≡ (
          (conclude rt config s principal tool_name arguments answer answered_turn).0,
          released (conclude rt config s principal tool_name arguments answer answered_turn).1,
        )
        → Exit r
