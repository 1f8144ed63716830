-- ===== src/Bridge/CallTool/Replies.antt =====
-- What the caller of `handle_call_tool`, in sentinelmcp/gateway/bridge.py, gets.
use sentinel_mcp.Prelude.{
  ◌≡◌, refl, ap, sym, ◌∙◌, ◌⊎◌, inl, inr, true, none, some, List, [], String,
}
use sentinel_mcp.Json.{Fields}
use sentinel_mcp.Exec.{Exn, cancelled_error, timeout_error, error, Outcome, ok, raised}
use sentinel_mcp.Policy.Models.{ToolPolicy}
use sentinel_mcp.Policy.Engine.{resolve_tool_policy}
use sentinel_mcp.Limits.RateLimiter
use sentinel_mcp.Audit.Record.{AuditOutcome}
use sentinel_mcp.Bridge.Results.{
  CallToolResult, denied_result, upstream_timeout_result, upstream_error_result, finalize,
}
use sentinel_mcp.Bridge.State.{Tool, Gateway, Runtime, Config, Surroundings, Locals, Turn}
use sentinel_mcp.Bridge.Turns.{find_tool, within, initial}
use sentinel_mcp.Bridge.CallTool.{reject, conclude, recover, pipeline, attempt}
use sentinel_mcp.Bridge.CallTool.Exits
use sentinel_mcp.Bridge.CallTool.Exits.Reached.{pipeline-Exit}
use sentinel_mcp.Bridge.CallTool.Forwarding
use sentinel_mcp.Bridge.CallTool.Auditing

-- What the caller of a forwarded call gets for the upstream's answer: its result, with the correlation
-- ID; a result that says so for a timeout and for an error; the cancellation itself.
abbrev pub reply_for : Surroundings → String → Outcome CallToolResult → Outcome CallToolResult
reply_for s tool_name (ok result) = ok (finalize s.correlation_id result)
reply_for s tool_name (raised timeout_error) =
    ok (finalize s.correlation_id (upstream_timeout_result tool_name))
reply_for s tool_name (raised (error reason)) =
    ok (finalize s.correlation_id (upstream_error_result tool_name reason))
reply_for s tool_name (raised cancelled_error) = raised cancelled_error

module _ (rt : Runtime) (config : Config) (s : Surroundings) (principal tool_name : String)
    (arguments : Fields) where
  recover-conclude :
      (o : Outcome CallToolResult) (t : Turn)
      → t.locals.disk ≡ []
      → (Auditing.recovered rt config s principal tool_name arguments
          (Auditing.concluded rt config s principal tool_name arguments o t)).0
        ≡ reply_for s tool_name o
  unfolding recover conclude
  recover-conclude (ok result) t fine = rw fine refl
  recover-conclude (raised timeout_error) t fine = rw fine refl
  recover-conclude (raised cancelled_error) t fine = rw fine refl
  recover-conclude (raised (error reason)) t fine = rw fine refl

  recover-reject :
      (out : AuditOutcome) (result : CallToolResult) (t : Turn)
      → t.locals.disk ≡ []
      → (Auditing.recovered rt config s principal tool_name arguments
          (reject rt config s principal tool_name arguments out result t)).0
        ≡ ok (finalize s.correlation_id result)
  unfolding recover reject
  recover-reject out result t fine = rw fine refl

  module _ (g : Gateway) where
    attempt-reply :
        (r : Outcome CallToolResult × Turn)
        → pipeline rt config s principal tool_name arguments
            (record { gateway = g; locals = initial s })
          ≡ r
        → (attempt rt config s principal tool_name arguments g).0
          ≡ (Auditing.recovered rt config s principal tool_name arguments r).0
    unfolding attempt
    attempt-reply r same =
        ap
          (λ (x : Outcome CallToolResult × Turn).
            (Auditing.recovered rt config s principal tool_name arguments x).0)
          same

    -- Where every audit write succeeds, a permitted call gets the upstream's answer, within the timeout: a result is passed on, and a
    -- timeout or an error of the upstream is reported in a result and never raised. Only a cancellation
    -- is raised.
    pub attempt-permitted :
        Forwarding.Permitted rt config s principal tool_name arguments g
        → s.disk ≡ []
        → (attempt rt config s principal tool_name arguments g).0
          ≡ reply_for s tool_name
              (within config.upstream_call_timeout (s.called tool_name arguments))
    attempt-permitted permitted fine =
        let cleared =
          Forwarding.Permitted-Cleared rt config s principal tool_name arguments g permitted in
        elim (pipeline-Exit rt config s principal tool_name arguments g) [
          | Exits.crashed e gx l crash same ↦
              absurd
                (Forwarding.Crash-Cleared rt config s principal tool_name arguments g crash cleared)
          | Exits.rejected out result gx l rejection same ↦ absurd (
              Forwarding.Rejection-Cleared rt config s principal tool_name arguments g rejection
                cleared)
          | Exits.executed c same ↦
              attempt-reply _ same
              ∙ recover-conclude _ (Exits.answered_turn rt config s principal tool_name arguments g)
                  fine
        ]

    abbrev Unknown : Type 0
    Unknown =
        (resolve_tool_policy config.policy principal tool_name ≡ none)
        ⊎ ((tools : List Tool) × ((Exits.listing rt config s principal tool_name arguments g).0
              ≡ ok tools)
            × (find_tool tool_name tools ≡ none))

    abbrev IsGranted : Type 0
    IsGranted =
        (RateLimiter.try_acquire config.token g.rate_limiter principal s.created s.now).1 ≡ ok true

    Crash-IsUnknown :
        {e : Exn} {gx : Gateway} {l : Locals}
        → Exits.Crash rt config s principal tool_name arguments g e gx l
        → IsGranted
        → Unknown
        → ⊥
    Crash-IsUnknown (Exits.limiter_failed broken) h u = cc (broken, h)
    Crash-IsUnknown (Exits.listing_failed rule token resolved broken) h (inl missing) =
        cc (resolved, missing)
    Crash-IsUnknown (Exits.listing_failed rule token resolved broken) h
          (inr (tools, had, missing)) =
        cc (broken, had)

    Cleared-IsUnknown : Exits.Cleared rt config s principal tool_name arguments g → Unknown → ⊥
    Cleared-IsUnknown c (inl missing) = cc (c.schematic.listed.resolved, missing)
    Cleared-IsUnknown c (inr (tools, had, missing)) =
        cc (c.schematic.listed.had, had, c.schematic.found, missing)

    Listed-IsUnknown :
        (rule : ToolPolicy) (tools : List Tool) (tool : Tool)
        → Exits.Listed rt config s principal tool_name arguments g rule tools
        → find_tool tool_name tools ≡ some tool
        → Unknown
        → ⊥
    Listed-IsUnknown rule tools tool listed found (inl missing) = cc (listed.resolved, missing)
    Listed-IsUnknown rule tools tool listed found (inr (tools', had, missing)) =
        cc (listed.had, had, found, missing)

    Rejection-IsUnknown :
        {out : AuditOutcome} {result : CallToolResult} {gx : Gateway} {l : Locals}
        → Exits.Rejection rt config s principal tool_name arguments g out result gx l
        → IsGranted
        → Unknown
        → result ≡ denied_result tool_name
    Rejection-IsUnknown (Exits.limited e) h u = cc (e, h)
    Rejection-IsUnknown (Exits.no_rule token e) h u = refl
    Rejection-IsUnknown (Exits.no_tool rule tools listed e) h u = refl
    Rejection-IsUnknown (Exits.bad_schema rule tools tool reason listed found e) h u =
        absurd (Listed-IsUnknown rule tools tool listed found u)
    Rejection-IsUnknown (Exits.bad_arguments rule violation sch e) h u =
        absurd (Listed-IsUnknown rule sch.tools sch.tool sch.listed sch.found u)
    Rejection-IsUnknown (Exits.busy rule sch sat full) h u =
        absurd (Listed-IsUnknown rule sch.tools sch.tool sch.listed sch.found u)

    -- The token is granted, and either the policy does not allow the call or the upstream's list does
    -- not have the tool.
    pub record IsUnknown : Type 0 where
      pub granted :
          (RateLimiter.try_acquire config.token g.rate_limiter principal s.created s.now).1
          ≡ ok true
      pub unknown :
          (resolve_tool_policy config.policy principal tool_name ≡ none)
          ⊎ ((tools : List Tool) × ((Exits.listing rt config s principal tool_name arguments g).0
                ≡ ok tools)
              × (find_tool tool_name tools ≡ none))

    IsUnknown-reply :
        IsUnknown
        → s.disk ≡ []
        → (attempt rt config s principal tool_name arguments g).0
          ≡ ok (finalize s.correlation_id (denied_result tool_name))
    IsUnknown-reply u fine = elim (pipeline-Exit rt config s principal tool_name arguments g) [
      | Exits.crashed e gx l crash same ↦ absurd (Crash-IsUnknown crash u.granted u.unknown)
      | Exits.rejected out result gx l rejection same ↦
          attempt-reply _ same
          ∙ recover-reject out result (record { gateway = gx; locals = l })
              ((Auditing.Rejection-IsQuiet rt config s principal tool_name arguments g rejection).1
                ∙ fine)
          ∙ ap (λ (x : CallToolResult). ok (finalize s.correlation_id x))
              (Rejection-IsUnknown rejection u.granted u.unknown)
      | Exits.executed c same ↦ absurd (Cleared-IsUnknown c u.unknown)
    ]

-- A caller cannot tell a tool that it may not call from one that does not exist: two attempts at the
-- same tool name, each denied for either reason, with whatever policies, principals, arguments and
-- gateways, get the same result under the same correlation ID.
pub denied_alike :
    (rt rt' : Runtime) (config config' : Config) (s s' : Surroundings)
    (principal principal' tool_name : String) (arguments arguments' : Fields) (g g' : Gateway)
    → IsUnknown rt config s principal tool_name arguments g
    → IsUnknown rt' config' s' principal' tool_name arguments' g'
    → s.disk ≡ []
    → s'.disk ≡ []
    → s.correlation_id ≡ s'.correlation_id
    → (attempt rt config s principal tool_name arguments g).0
      ≡ (attempt rt' config' s' principal' tool_name arguments' g').0
denied_alike rt rt' config config' s s' principal principal' tool_name arguments arguments' g g' u
      u' fine fine' same =
    IsUnknown-reply rt config s principal tool_name arguments g u fine
    ∙ ap (λ (id : String). ok (finalize id (denied_result tool_name))) same
    ∙ sym (IsUnknown-reply rt' config' s' principal' tool_name arguments' g' u' fine')
