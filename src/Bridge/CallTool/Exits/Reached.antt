-- ===== src/Bridge/CallTool/Exits/Reached.antt =====
-- `handle_call_tool` of sentinelmcp/gateway/bridge.py, stage by stage: which exit it takes.
use sentinel_mcp.Prelude.{
  ◌≡◌, refl, Bool, true, none, some, List, String, Option-cases, Bool-cases, inl, inr,
}
use sentinel_mcp.Json.{Fields}
use sentinel_mcp.Exec.{Outcome, ok, Outcome-cases}
use sentinel_mcp.Policy.Models.{ToolPolicy}
use sentinel_mcp.Policy.Engine.{resolve_tool_policy, evaluate_argument_policy}
use sentinel_mcp.Policy.Schema.{validate_input_schema}
use sentinel_mcp.Limits.RateLimiter.{RateLimiter}
use sentinel_mcp.Limits.Concurrency.{ConcurrencyLimiter}
use sentinel_mcp.Bridge.Results.{CallToolResult}
use sentinel_mcp.Bridge.State.{Tool, Gateway, Runtime, Config, Surroundings, Locals, Turn}
use sentinel_mcp.Bridge.Turns.{find_tool, initial}
use sentinel_mcp.Bridge.CallTool.{
  with_slot, execute, check_arguments, check_schema, look_up, authorized, authorize, pipeline,
}
use sentinel_mcp.Bridge.CallTool.Exits
use sentinel_mcp.Bridge.CallTool.Exits.{
  crashed, rejected, executed, limiter_failed, listing_failed, limited, no_rule, no_tool,
  bad_schema, bad_arguments, busy,
}

module _ (rt : Runtime) (config : Config) (s : Surroundings) (principal tool_name : String)
    (arguments : Fields) (g : Gateway) where
  abbrev token_taken : RateLimiter × Outcome Bool
  token_taken = Exits.token_taken rt config s principal tool_name arguments g

  abbrev limited_gateway : Gateway
  limited_gateway = Exits.limited_gateway rt config s principal tool_name arguments g

  abbrev listing : Outcome (List Tool) × Gateway
  listing = Exits.listing rt config s principal tool_name arguments g

  abbrev slot : ConcurrencyLimiter × Bool
  slot = Exits.slot rt config s principal tool_name arguments g

  abbrev rate_passed : Locals
  rate_passed = Exits.rate_passed rt config s principal tool_name arguments g

  abbrev arguments_passed : Locals
  arguments_passed = Exits.arguments_passed rt config s principal tool_name arguments g

  abbrev Listed : ToolPolicy → List Tool → Type 0
  Listed = Exits.Listed rt config s principal tool_name arguments g

  abbrev Schematic : ToolPolicy → Type 0
  Schematic = Exits.Schematic rt config s principal tool_name arguments g

  abbrev Exit : Outcome CallToolResult × Turn → Type 0
  Exit = Exits.Exit rt config s principal tool_name arguments g

  with_slot-Exit :
      (rule : ToolPolicy)
      → Schematic rule
      → evaluate_argument_policy rt.fullmatch rule arguments ≡ none
      → Exit (
          with_slot rt config s principal tool_name arguments
            (execute rt config s principal tool_name arguments)
            (record { gateway = listing.1; locals = arguments_passed }))
  unfolding with_slot execute
  with_slot-Exit rule sch sat = elim (Bool-cases slot.1) [
    | inl free ↦
        executed (record { rule = rule; schematic = sch; satisfied = sat; slotted = free })
          (rw free refl)
    | inr full ↦ rejected _ _ _ _ (busy rule sch sat full) (rw full refl)
  ]

  check_arguments-Exit :
      (rule : ToolPolicy)
      → Schematic rule
      → Exit (
          check_arguments rt config s principal tool_name arguments rule
            (record { gateway = listing.1; locals = rate_passed }))
  unfolding check_arguments
  check_arguments-Exit rule sch =
      elim (Option-cases (evaluate_argument_policy rt.fullmatch rule arguments)) [
        | inl sat ↦ rw sat (with_slot-Exit rule sch sat)
        | inr (violation, broken) ↦
            rejected _ _ _ _ (bad_arguments rule violation sch broken) (rw broken refl)
      ]

  check_schema-Exit :
      (rule : ToolPolicy) (tools : List Tool) (tool : Tool)
      → Listed rule tools
      → find_tool tool_name tools ≡ some tool
      → Exit (
          check_schema rt config s principal tool_name arguments rule tool
            (record { gateway = listing.1; locals = rate_passed }))
  unfolding check_schema
  check_schema-Exit rule tools tool listed found =
      elim (Option-cases (validate_input_schema rt.validate tool.input_schema arguments)) [
        | inl fits ↦
            rw (fits, check_schema)
              (check_arguments-Exit rule (record {
                tools = tools;
                tool = tool;
                listed = listed;
                found = found;
                conforming = fits;
              }))
        | inr (reason, broken) ↦
            rejected _ _ _ _ (bad_schema rule tools tool reason listed found broken)
              (rw (broken, check_schema) refl)
      ]

  look_up-Exit :
      (rule : ToolPolicy) (tools : List Tool)
      → Listed rule tools
      → Exit (
          look_up rt config s principal tool_name arguments rule tools
            (record { gateway = listing.1; locals = rate_passed }))
  unfolding look_up
  look_up-Exit rule tools listed = elim (Option-cases (find_tool tool_name tools)) [
    | inl missing ↦
        rejected _ _ _ _ (no_tool rule tools listed missing) (rw (missing, look_up) refl)
    | inr (tool, found) ↦ rw (found, look_up) (check_schema-Exit rule tools tool listed found)
  ]

  authorized-Exit :
      (rule : ToolPolicy)
      → token_taken.1 ≡ ok true
      → resolve_tool_policy config.policy principal tool_name ≡ some rule
      → Exit (
          authorized rt config s principal tool_name arguments rule
            (record { gateway = limited_gateway; locals = rate_passed }))
  unfolding authorized
  authorized-Exit rule granted resolved = elim (Outcome-cases listing.0) [
    | inr (e, lost_list) ↦
        crashed e _ _ (listing_failed rule granted resolved lost_list) (rw lost_list refl)
    | inl (tools, had) ↦
        rw had
          (look_up-Exit rule tools (record { granted = granted; resolved = resolved; had = had }))
  ]

  authorize-Exit :
      token_taken.1 ≡ ok true
      → Exit (
          authorize rt config s principal tool_name arguments
            (record { gateway = limited_gateway; locals = initial s }))
  unfolding authorize
  authorize-Exit granted =
      elim (Option-cases (resolve_tool_policy config.policy principal tool_name)) [
        | inl none_ ↦ rejected _ _ _ _ (no_rule granted none_) (rw none_ refl)
        | inr (rule, resolved) ↦ rw resolved (authorized-Exit rule granted resolved)
      ]

  -- Every run of the pipeline takes one of the exits.
  pub pipeline-Exit : Exit (
      pipeline rt config s principal tool_name arguments
        (record { gateway = g; locals = initial s }))
  unfolding pipeline
  pipeline-Exit = elim (Outcome-cases token_taken.1) [
    | inr (e, broken) ↦
        crashed e limited_gateway (initial s) (limiter_failed broken) (rw broken refl)
    | inl (granted, taken) ↦ rw taken (elim (Bool-cases granted) [
      | inl yes_ ↦ rw yes_ (authorize-Exit (rw yes_ at taken))
      | inr no_ ↦ rejected _ _ _ _ (limited (rw no_ at taken)) (rw no_ refl)
    ])
  ]
