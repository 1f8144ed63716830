-- ===== src/Bridge/CallTool/Forwarding.antt =====
-- When `handle_call_tool` of sentinelmcp/gateway/bridge.py calls the upstream.
use sentinel_mcp.Prelude.{
  ◌<◌, ◌≡◌, ◌≢◌, refl, ap, ◌∙◌, ◌⊎◌, inl, inr, true, none, some, List, [], ◌∷◌, ◌++◌, String,
}
use sentinel_mcp.Json.{Fields}
use sentinel_mcp.Exec.{Exn, ok}
use sentinel_mcp.Policy.Models.{ToolPolicy}
use sentinel_mcp.Policy.Engine.Spec.{Satisfies}
use sentinel_mcp.Policy.Engine.Arguments.{evaluate_argument_policy_iff}
use sentinel_mcp.Policy.Engine.Authorization.{Authorizes, resolve_tool_policy_iff}
use sentinel_mcp.Policy.Schema.{validate_input_schema}
use sentinel_mcp.Limits.RateLimiter
use sentinel_mcp.Limits.RateLimiter.{RateLimiter}
use sentinel_mcp.Limits.Concurrency.{active_count}
use sentinel_mcp.Limits.Concurrency.Holders.{try_acquire_iff}
use sentinel_mcp.Audit.Record.{AuditOutcome}
use sentinel_mcp.Bridge.Results.{CallToolResult}
use sentinel_mcp.Bridge.State.{Tool, Gateway, Runtime, Config, Surroundings, Locals}
use sentinel_mcp.Bridge.Cache
use sentinel_mcp.Bridge.Cache.Laws.{concurrency-get, forwarded-get}
use sentinel_mcp.Bridge.Turns.{find_tool, placed}
use sentinel_mcp.Bridge.Placing.{placed-cases}
use sentinel_mcp.Bridge.CallTool.{attempt}
use sentinel_mcp.Bridge.CallTool.Exits
use sentinel_mcp.Bridge.CallTool.Endings.{Ending, stopped, turned_down, carried_out, attempt-Ending}

module _ (rt : Runtime) (config : Config) (s : Surroundings) (principal tool_name : String)
    (arguments : Fields) (g : Gateway) where
  abbrev after : Gateway
  after = (attempt rt config s principal tool_name arguments g).1

  abbrev pub limited : Gateway
  limited = Exits.limited_gateway rt config s principal tool_name arguments g

  abbrev pub Crash : Exn → Gateway → Locals → Type 0
  Crash = Exits.Crash rt config s principal tool_name arguments g

  abbrev pub Rejection : AuditOutcome → CallToolResult → Gateway → Locals → Type 0
  Rejection = Exits.Rejection rt config s principal tool_name arguments g

  abbrev pub Cleared : Type 0
  Cleared = Exits.Cleared rt config s principal tool_name arguments g

  abbrev ending : Ending rt config s principal tool_name arguments g after
  ending = attempt-Ending rt config s principal tool_name arguments g

  -- The call may go to the upstream: the limiter grants a token, the policy has an `allow` rule for it,
  -- the upstream has the tool, its schema accepts the arguments, they satisfy the rule's constraints,
  -- and the principal is below its ceiling.
  pub record Permitted : Type 0 where
    pub granted :
        (RateLimiter.try_acquire config.token g.rate_limiter principal s.created s.now).1 ≡ ok true
    pub rule : ToolPolicy
    pub authorized : Authorizes config.policy principal tool_name rule
    pub tools : List Tool
    pub had : (Cache.get s.lock_wait s.listed limited).0 ≡ ok tools
    pub tool : Tool
    pub found : find_tool tool_name tools ≡ some tool
    pub conforming : validate_input_schema rt.validate tool.input_schema arguments ≡ none
    pub satisfied : Satisfies rt.fullmatch rule arguments
    pub below : active_count g.concurrency_limiter principal < g.concurrency_limiter.max_concurrent

  pub Permitted-Cleared : Permitted → Cleared
  Permitted-Cleared m =
      let resolved =
        (resolve_tool_policy_iff config.policy principal tool_name m.rule).1 m.authorized in
      record {
        rule = m.rule;
        schematic = record {
          tools = m.tools;
          tool = m.tool;
          listed = record { granted = m.granted; resolved = resolved; had = m.had };
          found = m.found;
          conforming = m.conforming;
        };
        satisfied = (evaluate_argument_policy_iff rt.fullmatch m.rule arguments).1 m.satisfied;
        slotted =
            rw (concurrency-get s.lock_wait s.listed limited)
              ((try_acquire_iff g.concurrency_limiter principal).1 m.below);
      }

  pub Cleared-Permitted : Cleared → Permitted
  Cleared-Permitted c = record {
    granted = c.schematic.listed.granted;
    rule = c.rule;
    authorized =
        (resolve_tool_policy_iff config.policy principal tool_name c.rule).0
          c.schematic.listed.resolved;
    tools = c.schematic.tools;
    had = c.schematic.listed.had;
    tool = c.schematic.tool;
    found = c.schematic.found;
    conforming = c.schematic.conforming;
    satisfied = (evaluate_argument_policy_iff rt.fullmatch c.rule arguments).0 c.satisfied;
    below =
        (try_acquire_iff g.concurrency_limiter principal).0
          (rw (concurrency-get s.lock_wait s.listed limited) at c.slotted);
  }

  pub Crash-Cleared : {e : Exn} {gx : Gateway} {l : Locals} → Crash e gx l → ¬ Cleared
  Crash-Cleared (Exits.limiter_failed broken) c = cc (broken, c.schematic.listed.granted)
  Crash-Cleared (Exits.listing_failed rule granted resolved broken) c =
      cc (broken, c.schematic.listed.had)

  pub Rejection-Cleared :
      {out : AuditOutcome} {result : CallToolResult} {gx : Gateway} {l : Locals}
      → Rejection out result gx l
      → ¬ Cleared
  Rejection-Cleared (Exits.limited e) c = cc (e, c.schematic.listed.granted)
  Rejection-Cleared (Exits.no_rule granted e) c = cc (e, c.schematic.listed.resolved)
  Rejection-Cleared (Exits.no_tool rule tools listed e) c =
      cc (e, listed.had, c.schematic.listed.had, c.schematic.found)
  Rejection-Cleared (Exits.bad_schema rule tools tool reason listed found e) c =
      cc (e, found, listed.had, c.schematic.listed.had, c.schematic.found, c.schematic.conforming)
  Rejection-Cleared (Exits.bad_arguments rule violation sch e) c =
      cc (e, sch.listed.resolved, c.schematic.listed.resolved, c.satisfied)
  Rejection-Cleared (Exits.busy rule sch sat full) c = cc (full, c.slotted)

  abbrev forwarded_of : Gateway → List (String × Fields)
  forwarded_of x = x.forwarded

  Crash-forwarded :
      {e : Exn} {gx : Gateway} {l : Locals} → Crash e gx l → gx.forwarded ≡ g.forwarded
  Crash-forwarded (Exits.limiter_failed broken) = refl
  Crash-forwarded (Exits.listing_failed rule granted resolved broken) =
      forwarded-get s.lock_wait s.listed limited

  Rejection-forwarded :
      {out : AuditOutcome} {result : CallToolResult} {gx : Gateway} {l : Locals}
      → Rejection out result gx l
      → gx.forwarded ≡ g.forwarded
  Rejection-forwarded (Exits.limited e) = refl
  Rejection-forwarded (Exits.no_rule granted e) = refl
  Rejection-forwarded (Exits.no_tool rule tools listed e) =
      forwarded-get s.lock_wait s.listed limited
  Rejection-forwarded (Exits.bad_schema rule tools tool reason listed found e) =
      forwarded-get s.lock_wait s.listed limited
  Rejection-forwarded (Exits.bad_arguments rule violation sch e) =
      forwarded-get s.lock_wait s.listed limited
  Rejection-forwarded (Exits.busy rule sch sat full) = forwarded-get s.lock_wait s.listed limited

  -- The call is permitted, and the timeout leaves it time to start.
  abbrev pub Forwardable : Type 0
  Forwardable = Permitted × (config.upstream_call_timeout ≢ some 0)

  -- The upstream receives the call exactly when it is permitted and no timeout of zero stops it before it
  -- starts: then once, under the caller's tool name and with the caller's arguments unchanged; otherwise
  -- the upstream gets nothing.
  pub forwarded-attempt :
      (Forwardable
        × ((attempt rt config s principal tool_name arguments g).1.forwarded
            ≡ g.forwarded ++ (tool_name, arguments) ∷ []))
      ⊎ ((¬ Forwardable)
          × ((attempt rt config s principal tool_name arguments g).1.forwarded ≡ g.forwarded))
  forwarded-attempt = elim ending [
    | stopped e gx l crash same ↦ inr (
      (λ m. Crash-Cleared crash (Permitted-Cleared m.0)),
      ap forwarded_of same ∙ Crash-forwarded crash,
    )
    | turned_down out result gx l rejection same ↦ inr (
      (λ m. Rejection-Cleared rejection (Permitted-Cleared m.0)),
      ap forwarded_of same ∙ Rejection-forwarded rejection,
    )
    | carried_out c same ↦
        let sent =
          ap forwarded_of same
          ∙ ap (placed config.upstream_call_timeout tool_name arguments)
              (forwarded-get s.lock_wait s.listed limited) in
        elim (placed-cases config.upstream_call_timeout tool_name arguments g.forwarded) [
          | inl (timely, once) ↦ inl ((Cleared-Permitted c, timely), sent ∙ once)
          | inr (timeless, nothing) ↦ inr ((λ m. m.1 timeless), sent ∙ nothing)
        ]
  ]
