-- ===== src/Bridge/Flight/Alone.antt =====
-- A request alone at the gateway: the machine of Flight beside the handler of CallTool.
use sentinel_mcp.Prelude.{
  ℕ, suc, ◌≡◌, refl, Bool, true, false, Option, none, some, List, inl, inr, if◌then◌else◌,
  Bool-cases, Option-cases,
}
use sentinel_mcp.Exec.{
  cancelled_error, timeout_error, error, Outcome, ok, raised, Exec, continue, ◌>>=◌,
}
use sentinel_mcp.Policy.Models.{ToolPolicy}
use sentinel_mcp.Policy.Engine.{resolve_tool_policy, evaluate_argument_policy}
use sentinel_mcp.Policy.Schema.{validate_input_schema}
use sentinel_mcp.Limits.Concurrency
use sentinel_mcp.Audit.Record.{rate_limited, passed}
use sentinel_mcp.Bridge.Results.{CallToolResult, rate_limited_result}
use sentinel_mcp.Bridge.State.{Tool, Gateway, Runtime, Config, Request, Locals, Turn}
use sentinel_mcp.Bridge.Cache
use sentinel_mcp.Bridge.Turns.{find_tool, within, initial, on_gateway}
use sentinel_mcp.Bridge.CallTool.{
  reject, conclude, forward, with_slot, execute, authorized, deny_call, pipeline, attempt,
}
use sentinel_mcp.Bridge.CallTool
use sentinel_mcp.Bridge.Flight.{
  Shared, Point, ready, listing, calling, authorizing, rate_passed, started, enter, take_slot,
  check_arguments, check_schema, look_up, look, fetched, wait_for_lock, answered, advance,
}
use sentinel_mcp.Bridge.Flight.Drive.{
  drive, free, turn, ended, closed, left_of, drive-recovering, drive-emitting, drive-rejecting,
}

module _ (rt : Runtime) (config : Config) (r : Request) where
  module _ (n : ℕ) where
    drive-answered :
        (o : Outcome CallToolResult) (l : Locals) (g : Gateway)
        → l.audit_emitted ≡ false
        → drive rt config r (suc (suc n)) (answered rt config r o l, free g)
          ≡ ended (
              closed rt config r (
                left_of rt config r true (
                  conclude rt config r.surroundings r.principal r.tool_name r.arguments o
                    (turn g l))))
    unfolding answered conclude
    drive-answered (ok result) l g unsaid = drive-emitting rt config r n true _ _ _ _ l g unsaid
    drive-answered (raised timeout_error) l g unsaid =
        drive-emitting rt config r n true _ _ _ _ l g unsaid
    drive-answered (raised cancelled_error) l g unsaid =
        drive-emitting rt config r n true _ _ _ _ l g unsaid
    drive-answered (raised (error reason)) l g unsaid =
        drive-emitting rt config r n true _ _ _ _ l g unsaid

    abbrev the_answer : Outcome CallToolResult
    the_answer = within config.upstream_call_timeout (r.surroundings.called r.tool_name r.arguments)

    abbrev timed : Locals → Locals
    timed l = record l { upstream_latency_ms = some r.surroundings.upstream_elapsed }

    drive-calling :
        (l : Locals) (g : Gateway)
        → l.audit_emitted ≡ false
        → drive rt config r (suc (suc (suc n))) (calling l, free g)
          ≡ ended (
              closed rt config r (
                left_of rt config r true (
                  conclude rt config r.surroundings r.principal r.tool_name r.arguments the_answer
                    (turn g (timed l)))))
    unfolding drive advance
    drive-calling l g unsaid = drive-answered the_answer (timed l) g unsaid

    drive-take_slot :
        (l : Locals) (g : Gateway)
        → l.audit_emitted ≡ false
        → drive rt config r (suc (suc (suc n))) (take_slot rt config r l (free g))
          ≡ ended (
              closed rt config r (
                with_slot rt config r.surroundings r.principal r.tool_name r.arguments
                  (execute rt config r.surroundings r.principal r.tool_name r.arguments)
                  (turn g l)))
    unfolding take_slot with_slot execute forward
    drive-take_slot l g unsaid =
        elim (Bool-cases (Concurrency.try_acquire g.concurrency_limiter r.principal).1) [
          | inl got ↦ rw got (drive-calling _ _ unsaid)
          | inr full ↦ rw full (drive-rejecting rt config r (suc n) _ _ _ _ unsaid)
        ]

    drive-check_arguments :
        (rule : ToolPolicy) (l : Locals) (g : Gateway)
        → l.audit_emitted ≡ false
        → drive rt config r (suc (suc (suc n))) (
            check_arguments rt config r rule
              (record l {
                schema_result = passed;
                policy_latency_ms = some r.surroundings.policy_elapsed;
              })
              (free g))
          ≡ ended (
              closed rt config r (
                CallTool.check_arguments rt config r.surroundings r.principal r.tool_name
                  r.arguments rule
                  (turn g l)))
    unfolding check_arguments CallTool.check_arguments
    drive-check_arguments rule l g unsaid =
        elim (Option-cases (evaluate_argument_policy rt.fullmatch rule r.arguments)) [
          | inr (violation, unmet) ↦
              rw (unmet, check_arguments) (drive-rejecting rt config r (suc n) _ _ _ _ unsaid)
          | inl sat ↦ rw (sat, check_arguments) (drive-take_slot _ g unsaid)
        ]

    drive-check_schema :
        (rule : ToolPolicy) (tool : Tool) (l : Locals) (g : Gateway)
        → l.audit_emitted ≡ false
        → drive rt config r (suc (suc (suc n))) (check_schema rt config r rule tool l (free g))
          ≡ ended (
              closed rt config r (
                CallTool.check_schema rt config r.surroundings r.principal r.tool_name r.arguments
                  rule tool
                  (turn g l)))
    unfolding check_schema CallTool.check_schema
    drive-check_schema rule tool l g unsaid =
        elim (Option-cases (validate_input_schema rt.validate tool.input_schema r.arguments)) [
          | inr (reason, unfit) ↦
              rw (unfit, check_schema, CallTool.check_schema)
                (drive-rejecting rt config r (suc n) _ _ _ _ unsaid)
          | inl fits ↦
              rw (fits, check_schema, CallTool.check_schema) (drive-check_arguments rule l g unsaid)
        ]

    -- The handler from the cache on.
    abbrev authorized_from : Exec Gateway (List Tool) → ToolPolicy → Exec Turn CallToolResult
    authorized_from get_tools rule = on_gateway get_tools >>= λ tools.
        CallTool.look_up rt config r.surroundings r.principal r.tool_name r.arguments rule tools

    drive-look_up :
        (rule : ToolPolicy) (tools : List Tool) (l : Locals) (g : Gateway)
        → l.audit_emitted ≡ false
        → drive rt config r (suc (suc (suc n))) (look_up rt config r rule l tools (free g))
          ≡ ended (
              closed rt config r (
                CallTool.look_up rt config r.surroundings r.principal r.tool_name r.arguments rule
                  tools
                  (turn g l)))
    unfolding look_up CallTool.look_up deny_call
    drive-look_up rule tools l g unsaid = elim (Option-cases (find_tool r.tool_name tools)) [
      | inl missing ↦
          rw (missing, look_up, CallTool.look_up)
            (drive-rejecting rt config r (suc n) _ _ _ _ unsaid)
      | inr (tool, found) ↦
          rw (found, look_up, CallTool.look_up) (drive-check_schema rule tool l g unsaid)
    ]

    drive-fetched :
        (rule : ToolPolicy) (o : Outcome (List Tool)) (l : Locals) (g : Gateway)
        → l.audit_emitted ≡ false
        → drive rt config r
            (suc (suc (suc n)))
            (fetched rt config r rule l o (record { gateway = g; locked = true }))
          ≡ ended (closed rt config r (authorized_from (Cache.keep o) rule (turn g l)))
    unfolding fetched Cache.keep
    drive-fetched rule (raised e) l g unsaid =
        drive-recovering rt config r (suc (suc n)) e l _ unsaid
    drive-fetched rule (ok tools) l g unsaid = drive-look_up rule tools l _ unsaid

    -- `get`, once the lock is there.
    abbrev cached_or : Option (List Tool) → Exec Gateway (List Tool)
    cached_or o g = elim o [
      | some tools ↦ (ok tools, g)
      | none ↦ Cache.keep r.surroundings.listed g
    ]

  module _ (n : ℕ) where
    drive-look :
        (rule : ToolPolicy) (tools : Option (List Tool)) (l : Locals) (g : Gateway)
        → l.audit_emitted ≡ false
        → drive rt config r (suc (suc (suc (suc n)))) (look rt config r rule l tools (free g))
          ≡ ended (closed rt config r (authorized_from n (cached_or n tools) rule (turn g l)))
    unfolding look drive advance
    drive-look rule (some tools) l g unsaid = drive-look_up (suc n) rule tools l g unsaid
    drive-look rule none l g unsaid = drive-fetched n rule r.surroundings.listed l g unsaid

    -- The rest of a drive, after a step.
    abbrev onward : ℕ → Point × Shared → Option (Point × Shared) → Point × Shared
    onward m at none = at
    onward m at (some next) = drive rt config r m next

    drive-wait :
        (rule : ToolPolicy) (o : Outcome (Unit {0})) (l : Locals) (g : Gateway)
        → l.audit_emitted ≡ false
        → onward
            (suc (suc (suc (suc n))))
            (listing rule l, free g)
            (wait_for_lock rt config r rule l o (free g))
          ≡ ended (
              closed rt config r
                (authorized_from n (Cache.get o r.surroundings.listed) rule (turn g l)))
    unfolding wait_for_lock Cache.get
    drive-wait rule (raised e) l g unsaid =
        drive-recovering rt config r (suc (suc (suc n))) e l g unsaid
    drive-wait rule (ok u) l g unsaid = drive-look rule g.tools l g unsaid

    drive-listing :
        (rule : ToolPolicy) (l : Locals) (g : Gateway)
        → l.audit_emitted ≡ false
        → drive rt config r (suc (suc (suc (suc (suc n))))) (listing rule l, free g)
          ≡ ended (
              closed rt config r (
                authorized rt config r.surroundings r.principal r.tool_name r.arguments rule
                  (turn g l)))
    unfolding drive advance authorized
    drive-listing rule l g unsaid = drive-wait rule r.surroundings.lock_wait l g unsaid

    drive-authorizing :
        (g : Gateway)
        → drive rt config r
            (suc (suc (suc (suc (suc n)))))
            (authorizing rt config r (rate_passed rt config r), free g)
          ≡ ended (
              closed rt config r (
                CallTool.authorize rt config r.surroundings r.principal r.tool_name r.arguments
                  (turn g (initial r.surroundings))))
    unfolding authorizing CallTool.authorize deny_call
    drive-authorizing g =
        elim (Option-cases (resolve_tool_policy config.policy r.principal r.tool_name)) [
          | inl missing ↦
              rw (missing, authorizing)
                (drive-rejecting rt config r (suc (suc (suc n))) _ _ _ _ refl)
          | inr (rule, resolved) ↦ rw (resolved, authorizing) (drive-listing rule _ g refl)
        ]

    abbrev the_pipeline : Outcome Bool → Exec Turn CallToolResult
    the_pipeline o = continue {S = Turn} o (λ (granted : Bool).
        if granted
        then CallTool.authorize rt config r.surroundings r.principal r.tool_name r.arguments
        else reject rt config r.surroundings r.principal r.tool_name r.arguments rate_limited
            (rate_limited_result r.tool_name))

    drive-started :
        (o : Outcome Bool) (g : Gateway)
        → drive rt config r (suc (suc (suc (suc (suc n))))) (started rt config r o, free g)
          ≡ ended (closed rt config r (the_pipeline o (turn g (initial r.surroundings))))
    unfolding started
    drive-started (raised e) g = drive-recovering rt config r (suc (suc (suc (suc n)))) e _ g refl
    drive-started (ok true) g = drive-authorizing g
    drive-started (ok false) g = drive-rejecting rt config r (suc (suc (suc n))) _ _ _ _ refl

  -- A request alone at the gateway, with the cache's lock free: within six steps its task comes to its
  -- end, with the very result or exception that the handler gives, and leaves the very gateway, audit log
  -- and calls of the upstream included, that the handler leaves, with the lock free.
  pub drive-ready :
      (g : Gateway)
      → drive rt config r 6 (ready, free g)
        ≡ ended (attempt rt config r.surroundings r.principal r.tool_name r.arguments g)
  unfolding drive advance enter attempt pipeline CallTool.take_token
  drive-ready g = drive-started 0 _ _
