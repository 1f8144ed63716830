-- ===== src/Bridge/Flight.antt =====
-- Several calls of `handle_call_tool` (sentinelmcp/gateway/bridge.py) in flight at one gateway: the
-- handler as a machine that stops at each `await` that can suspend, the cache's lock among its shared
-- state. What lies between two such `await`s is one step: the limiters' own locks are held over code
-- that does not suspend, so no task is ever found waiting for them. `Surroundings` says how each wait
-- of the task ends.
pub mod Moves
pub mod Advancing
pub mod Inquiry
pub mod World
pub mod Slots
pub mod Guards
pub mod Fetches
pub mod Logs
pub mod Records
pub mod Written
pub mod Accounts
pub mod Progress
pub mod Tokens
pub mod Rates
pub mod Traffic
pub mod Waiting
pub mod Settling
pub mod Ruled
pub mod Vetted
pub mod Drive
pub mod Alone
use sentinel_mcp.Prelude.{
  Bool, true, false, Option, none, some, List, [], ◌∷◌, ◌++◌, ◌+◌, if◌then◌else◌,
}
use sentinel_mcp.Exec.{Exn, cancelled_error, timeout_error, error, Outcome, ok, raised}
use sentinel_mcp.Policy.Models.{ToolPolicy}
use sentinel_mcp.Policy.Engine.{message, resolve_tool_policy, evaluate_argument_policy}
use sentinel_mcp.Policy.Schema.{validate_input_schema}
use sentinel_mcp.Limits.Concurrency
use sentinel_mcp.Audit.Record.{
  AuditOutcome, rate_limited, policy_denied, schema_rejected, concurrency_rejected,
  upstream_success, upstream_error, upstream_timeout, cancelled, passed, failed, Category,
}
use sentinel_mcp.Bridge.Results.{
  CallToolResult, denied_result, schema_invalid_result, policy_invalid_result, rate_limited_result,
  concurrency_rejected_result, upstream_timeout_result, upstream_error_result, finalize,
}
use sentinel_mcp.Bridge.State.{Tool, Gateway, Runtime, Config, Request, Locals, Turn}
use sentinel_mcp.Bridge.Turns.{find_tool, rule_name, within, placed, initial, outcome_of}
use sentinel_mcp.Bridge.CallTool.{emit, take_token}

-- What the tasks share; `locked` is the cache's lock.
pub record Shared : Type 0 where
  pub gateway : Gateway
  pub locked : Bool

-- Where a task stands, with what it remembers: before its first step, waiting for the cache's lock,
-- waiting with the lock for the upstream's list, waiting with a slot for the upstream's answer, writing
-- its record (with a slot or without) before it ends so, writing a record because of an exception, and
-- at its end.
pub data Point : Type 0 where
  ready : Point
  listing fetching : ToolPolicy → Locals → Point
  calling : Locals → Point
  emitting :
      (held : Bool)
      → AuditOutcome
      → (attempted : Bool) → Option Category
      → Outcome CallToolResult
      → Locals
      → Point
  recovering : Exn → Locals → Point
  done : Outcome CallToolResult → Point

module _ (rt : Runtime) (config : Config) (r : Request) where
  abbrev pub on_gateway : (Gateway → Gateway) → Shared → Shared
  on_gateway f sh = record sh { gateway = f sh.gateway }

  -- A terminal rejection.
  abbrev pub rejecting : AuditOutcome → CallToolResult → Locals → Point
  rejecting outcome result l =
      emitting false outcome false none (ok (finalize r.surroundings.correlation_id result)) l

  abbrev pub denied : Locals → Point
  denied l =
      rejecting policy_denied (denied_result r.tool_name) (record l { policy_result = failed })

  -- Up to the wait for the tool list.
  authorizing : Locals → Point
  authorizing l = elim (resolve_tool_policy config.policy r.principal r.tool_name) [
    | none ↦ denied l
    | some rule ↦ listing rule l
  ]

  abbrev pub rate_passed : Locals
  rate_passed = record (initial r.surroundings) {
    rate_limit_result = passed;
    matched_rule = rule_name config.policy r.principal r.tool_name;
  }

  started : Outcome Bool → Point
  unfolding authorizing
  started (raised e) = recovering e (initial r.surroundings)
  started (ok granted) =
      if granted
      then authorizing rate_passed
      else rejecting rate_limited (rate_limited_result r.tool_name) (initial r.surroundings)

  pub enter : Shared → Point × Shared
  unfolding started
  enter sh =
      let (granted, g) =
        take_token rt config r.surroundings r.principal r.tool_name r.arguments sh.gateway in
      (started granted, record sh { gateway = g })

  -- `concurrency_limiter.acquire`, and the call to the upstream.
  take_slot : Locals → Shared → Point × Shared
  take_slot l sh =
      let (limiter, acquired) =
        Concurrency.try_acquire sh.gateway.concurrency_limiter r.principal in
      if acquired
      then (
        calling (record l { concurrency_result = passed }),
        record sh {
          gateway = record sh.gateway {
            concurrency_limiter = limiter;
            forwarded =
                placed config.upstream_call_timeout r.tool_name r.arguments sh.gateway.forwarded;
          };
        },
      )
      else (
        rejecting concurrency_rejected (concurrency_rejected_result r.tool_name)
            (record l { concurrency_result = failed }),
        record sh { gateway = record sh.gateway { concurrency_limiter = limiter } },
      )

  check_arguments : ToolPolicy → Locals → Shared → Point × Shared
  unfolding take_slot
  check_arguments rule l sh = elim (evaluate_argument_policy rt.fullmatch rule r.arguments) [
    | some violation ↦ (
      rejecting policy_denied (policy_invalid_result r.tool_name (message rt.repr violation))
          (record l { policy_result = failed }),
      sh,
    )
    | none ↦ take_slot (record l { policy_result = passed }) sh
  ]

  check_schema : ToolPolicy → Tool → Locals → Shared → Point × Shared
  unfolding check_arguments
  check_schema rule tool l sh =
      elim (validate_input_schema rt.validate tool.input_schema r.arguments) [
        | some reason ↦ (
          rejecting schema_rejected (schema_invalid_result r.tool_name reason) (record l {
            schema_result = failed;
            policy_latency_ms = some r.surroundings.policy_elapsed;
          }),
          sh,
        )
        | none ↦
            check_arguments rule
              (record l {
                schema_result = passed;
                policy_latency_ms = some r.surroundings.policy_elapsed;
              })
              sh
      ]

  -- From the tool list to the next wait.
  look_up : ToolPolicy → Locals → List Tool → Shared → Point × Shared
  unfolding check_schema
  look_up rule l tools sh = elim (find_tool r.tool_name tools) [
    | none ↦ (denied l, sh)
    | some tool ↦ check_schema rule tool l sh
  ]

  -- The cache's lock is free: the cached list, or the lock is kept for the fetch.
  look : ToolPolicy → Locals → Option (List Tool) → Shared → Point × Shared
  unfolding look_up
  look rule l (some tools) sh = look_up rule l tools sh
  look rule l none sh = (fetching rule l, record sh { locked = true })

  -- The upstream's list has come, and the lock is released.
  fetched : ToolPolicy → Locals → Outcome (List Tool) → Shared → Point × Shared
  unfolding look_up
  fetched rule l (raised e) sh = (
    recovering e l,
    record { gateway = record sh.gateway { fetches = sh.gateway.fetches + 1 }; locked = false },
  )
  fetched rule l (ok tools) sh = look_up rule l tools (record {
    gateway = record sh.gateway { fetches = sh.gateway.fetches + 1; tools = some tools };
    locked = false;
  })

  wait_for_lock : ToolPolicy → Locals → Outcome (Unit {0}) → Shared → Option (Point × Shared)
  unfolding look
  wait_for_lock rule l (raised e) sh = some (recovering e l, sh)
  wait_for_lock rule l (ok _) sh =
      if sh.locked then none else some (look rule l sh.gateway.tools sh)

  -- The upstream has answered.
  answered : Outcome CallToolResult → Locals → Point
  answered (ok result) l =
      emitting true upstream_success true (some Category.success)
        (ok (finalize r.surroundings.correlation_id result)) l
  answered (raised timeout_error) l =
      emitting true upstream_timeout true (some Category.timeout)
        (ok (finalize r.surroundings.correlation_id (upstream_timeout_result r.tool_name))) l
  answered (raised cancelled_error) l =
      emitting true cancelled true (some Category.stopped) (raised cancelled_error) l
  answered (raised (error reason)) l =
      emitting true upstream_error true (some Category.error)
        (ok (finalize r.surroundings.correlation_id (upstream_error_result r.tool_name reason))) l

  -- A record was written, or not.
  abbrev after_emit : Outcome (Unit {0}) → Outcome CallToolResult → Locals → Point
  after_emit (ok _) result l = done result
  after_emit (raised e) result l = recovering e l

  abbrev after_recovery : Outcome (Unit {0}) → Exn → Outcome CallToolResult
  after_recovery (ok _) e = raised e
  after_recovery (raised e') e = raised e'

  -- A slot that is held is released as the block is left.
  abbrev pub leave : Bool → Gateway → Gateway
  leave true g = record g {
    concurrency_limiter = Concurrency.release g.concurrency_limiter r.principal;
  }
  leave false g = g

  abbrev pub writing :
      AuditOutcome → Bool → Option Category → Locals → Shared → Outcome (Unit {0}) × Turn
  writing outcome attempted category l sh =
      emit rt config r.surroundings r.principal r.tool_name r.arguments outcome attempted category
        (record { gateway = sh.gateway; locals = l })

  -- One step of the task; `none` where it waits for the lock or has ended.
  unfoldable pub advance : Point → Shared → Option (Point × Shared)
  unfolding enter wait_for_lock fetched answered
  advance ready sh = some (enter sh)
  advance (listing rule l) sh = wait_for_lock rule l r.surroundings.lock_wait sh
  advance (fetching rule l) sh = some (fetched rule l r.surroundings.listed sh)
  advance (calling l) sh = some (
    answered (within config.upstream_call_timeout (r.surroundings.called r.tool_name r.arguments))
        (record l { upstream_latency_ms = some r.surroundings.upstream_elapsed }),
    sh,
  )
  advance (emitting held outcome attempted category result l) sh =
      let (o, t) = writing outcome attempted category l sh in
      some (after_emit o result t.locals, record sh { gateway = leave held t.gateway })
  advance (recovering e l) sh =
      let (o, t) = writing (outcome_of e) false none l sh in
      some (done (after_recovery o e), record sh { gateway = t.gateway })
  advance (done result) sh = none
