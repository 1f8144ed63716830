-- ===== src/Tests/Requests.antt =====
-- One request at the sample gateway (sentinelmcp/gateway/bridge.py).
use sentinel_mcp.Prelude.{
  ◌+◌, ◌≤◌, ◌≡◌, ◌↔◌, refl, ◌⊎◌, inl, inr, true, none, some, List, [], ◌∷◌, ◌++◌, String, arith,
  length,
}
use sentinel_mcp.Exec.{cancelled_error, error, ok}
use sentinel_mcp.Prelude.Dict.{get}
use sentinel_mcp.Policy.Engine.{
  resolve_tool_policy, evaluate_argument_policy, known_top_level_fields, resolve_path,
  check_constraint,
}
use sentinel_mcp.Text.{split}
use sentinel_mcp.Limits.TokenBucket
use sentinel_mcp.Policy.Engine.Arguments.{evaluate_argument_policy_iff}
use sentinel_mcp.Policy.Schema.{validate_input_schema}
use sentinel_mcp.Limits.RateLimiter
use sentinel_mcp.Limits.Concurrency.{active_count, count_of}
use sentinel_mcp.Identity.Middleware.{Context}
use sentinel_mcp.Bridge.State.{Tool, Gateway, lost, written_but, Surroundings}
use sentinel_mcp.Bridge.Cache
use sentinel_mcp.Bridge.ListTools.{handle_list_tools}
use sentinel_mcp.Bridge.Visibility.{IsCallable, handle_list_tools-agrees}
use sentinel_mcp.Bridge.Turns.{find_tool, within}
use sentinel_mcp.Bridge.CallTool.{attempt}
use sentinel_mcp.Bridge.CallTool.Exits
use sentinel_mcp.Bridge.CallTool.Faults.{length-log_duplicated, length-log-attempt_le}
use sentinel_mcp.Bridge.CallTool.Forwarding.{Forwardable, Permitted, forwarded-attempt}
use sentinel_mcp.Bridge.CallTool.Slots.{active-attempt}
use sentinel_mcp.Bridge.CallTool.Replies.{IsUnknown, reply_for, attempt-permitted, denied_alike}
use sentinel_mcp.Tests.Samples.{
  runtime, config, surroundings, gateway, three, tools, policy, read_rule, read_tool, alice, echo,
}

abbrev quiet : Surroundings
quiet = surroundings []

forwarded-attempt_example :
    (Forwardable runtime config quiet "alice" "read" three gateway
      × ((attempt runtime config quiet "alice" "read" three gateway).1.forwarded
          ≡ gateway.forwarded ++ ("read", three) ∷ []))
    ⊎ ((¬ Forwardable runtime config quiet "alice" "read" three gateway)
        × ((attempt runtime config quiet "alice" "read" three gateway).1.forwarded
            ≡ gateway.forwarded))
forwarded-attempt_example = forwarded-attempt runtime config quiet "alice" "read" three gateway

active-attempt_example :
    active_count
      (attempt runtime config quiet "alice" "read" three gateway).1.concurrency_limiter
      "alice"
    ≡ active_count gateway.concurrency_limiter "alice"
active-attempt_example = active-attempt runtime config quiet "alice" "read" three gateway "alice"

evaluated : evaluate_argument_policy echo read_rule three ≡ none
unfolding evaluate_argument_policy known_top_level_fields resolve_path split get check_constraint
evaluated = refl

granted : (p : String) → (RateLimiter.try_acquire 1 gateway.rate_limiter p 100 100).1 ≡ ok true
unfolding RateLimiter.try_acquire TokenBucket.create TokenBucket.try_consume get
granted p = refl

-- The call passes every check.
permitted : Permitted runtime config quiet "alice" "read" three gateway
unfolding Cache.get find_tool validate_input_schema count_of get
permitted = record {
  granted = granted "alice";
  rule = read_rule;
  authorized = record { account = alice; named = refl; ruled = refl; allowed = refl };
  tools = tools;
  had = refl;
  tool = read_tool;
  found = refl;
  conforming = refl;
  satisfied = (evaluate_argument_policy_iff echo read_rule three).0 evaluated;
  below = omega arith;
}

attempt-permitted_example :
    (attempt runtime config quiet "alice" "read" three gateway).0
    ≡ reply_for quiet "read" (within (some 30) (quiet.called "read" three))
attempt-permitted_example =
    attempt-permitted runtime config quiet "alice" "read" three gateway permitted refl

-- Alice may not call `delete`, and bob may call nothing.
forbidden : IsUnknown runtime config quiet "alice" "delete" three gateway
unfolding resolve_tool_policy get
forbidden = record { granted = granted _; unknown = inl refl }

-- Alice may call `read`, but this gateway's upstream does not have it.
abbrev bare : Gateway
bare = record gateway { tools = some [] }

missing : IsUnknown runtime config quiet "alice" "read" three bare
unfolding Cache.get find_tool
missing = record { granted = granted "alice"; unknown = inr ([], refl, refl) }

stranger : IsUnknown runtime config quiet "bob" "read" three gateway
unfolding resolve_tool_policy get
stranger = record { granted = granted _; unknown = inl refl }

denied_alike_example :
    (attempt runtime config quiet "alice" "read" three bare).0
    ≡ (attempt runtime config quiet "bob" "read" three gateway).0
denied_alike_example =
    denied_alike runtime runtime config config quiet quiet "alice" "bob" "read" three three bare
      gateway missing stranger refl refl refl

-- The first audit write is lost, the next one is interrupted.
length-log-attempt_le_example :
    length
      (attempt runtime config
        (surroundings (lost (error "disk full") ∷ written_but cancelled_error ∷ []))
        "alice"
        "read"
        three
        gateway).1.log
    ≤ length gateway.log + 1
length-log-attempt_le_example =
    length-log-attempt_le runtime config
      (surroundings (lost (error "disk full") ∷ written_but cancelled_error ∷ [])) "alice" "read"
      three gateway (λ e rest h. cc h)

abbrev interrupted : Surroundings
interrupted = surroundings (written_but cancelled_error ∷ [])

listed : (Exits.listing runtime config interrupted "alice" "read" three gateway).0 ≡ ok tools
unfolding Cache.get
listed = refl

length-log_duplicated_example :
    length (attempt runtime config interrupted "alice" "read" three gateway).1.log
    ≡ length gateway.log + 2
length-log_duplicated_example =
    length-log_duplicated runtime config interrupted "alice" "read" three gateway cancelled_error
      true tools refl (granted "alice") listed

abbrev context : Context Gateway
context = record { principal_var = some "alice"; world = gateway }

had : (Cache.get (ok tt) (ok tools) gateway).0 ≡ ok tools
unfolding Cache.get
had = refl

handle_list_tools-agrees_example :
    (shown : List Tool) × ((handle_list_tools policy (ok tt) (ok tools) context).0 ≡ ok shown)
    × ((name : String)
        → (tool : Tool)
        → (find_tool name shown ≡ some tool) ↔ IsCallable policy "alice" name tools tool)
handle_list_tools-agrees_example =
    handle_list_tools-agrees policy (ok tt) (ok tools) context "alice" tools refl had

fetched :
    Cache.get (ok tt) (ok tools) gateway
    ≡ (ok tools, record gateway { fetches = 1; tools = some tools })
unfolding Cache.get
fetched = refl
