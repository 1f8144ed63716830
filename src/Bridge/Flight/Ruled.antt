-- ===== src/Bridge/Flight/Ruled.antt =====
-- What one step of a task forwards to the upstream (`handle_call_tool` of
-- sentinelmcp/gateway/bridge.py).
use sentinel_mcp.Prelude.{
  ◌≡◌, refl, ap, ◌∙◌, ◌⊎◌, inl, inr, Bool, true, false, Option, none, some, List, [], ◌∷◌, ◌++◌,
  String,
}
use sentinel_mcp.Json.{Fields}
use sentinel_mcp.Exec.{Outcome, ok, raised}
use sentinel_mcp.Policy.Models.{ToolPolicy}
use sentinel_mcp.Policy.Engine.{resolve_tool_policy}
use sentinel_mcp.Policy.Engine.Spec.{Satisfies}
use sentinel_mcp.Policy.Engine.Arguments.{evaluate_argument_policy_iff}
use sentinel_mcp.Policy.Engine.Authorization.{Authorizes, resolve_tool_policy_iff}
use sentinel_mcp.Audit.Record.{AuditOutcome, Category}
use sentinel_mcp.Bridge.Results.{CallToolResult}
use sentinel_mcp.Bridge.State.{Tool, Gateway, Runtime, Config, Request, Locals}
use sentinel_mcp.Bridge.Turns.{outcome_of}
use sentinel_mcp.Bridge.Placing.{placed-cases}
use sentinel_mcp.Bridge.CallTool.Endings.{emit-SameButLog}
use sentinel_mcp.Bridge.Flight.{Shared, Point, listing, fetching, after_emit, leave, writing}
use sentinel_mcp.Bridge.Flight.Moves.{
  Begun, broken, turned_away, going, Looked, turned_down, taken, Move, begin, give_up, fetch,
  cached, fetch_failed, fetch_done, answer, write, recover,
}

abbrev pub calls_of : Shared → List (String × Fields)
calls_of sh = sh.gateway.forwarded

module _ (rt : Runtime) (config : Config) (r : Request) where
  -- The rule that a task goes by is the policy's.
  abbrev pub IsRuled : Point → Type 0
  IsRuled (listing rule l) = resolve_tool_policy config.policy r.principal r.tool_name ≡ some rule
  IsRuled (fetching rule l) = resolve_tool_policy config.policy r.principal r.tool_name ≡ some rule
  IsRuled _ = Unit

  -- The policy has an allow rule for the request's principal and tool, and the arguments satisfy it.
  abbrev pub IsAllowed : Type 0
  IsAllowed =
      (rule : ToolPolicy) × Authorizes config.policy r.principal r.tool_name rule
      × Satisfies rt.fullmatch rule r.arguments

  -- Nothing is forwarded, or the request is, and is allowed.
  abbrev pub Forwards : Shared → Shared → Type 0
  Forwards sh sh' =
      (calls_of sh' ≡ calls_of sh)
      ⊎ ((calls_of sh' ≡ calls_of sh ++ (r.tool_name, r.arguments) ∷ []) × IsAllowed)

  Begun-IsRuled : {p : Point} → Begun rt config r p → IsRuled p
  Begun-IsRuled (broken e) = tt
  Begun-IsRuled (turned_away outcome result l same) = tt
  Begun-IsRuled (going rule l same resolved) = resolved

  Looked-IsRuled :
      {rule : ToolPolicy} {l : Locals} {tools : List Tool} {sh : Shared} {p' : Point} {sh' : Shared}
      → Looked rt config r rule l tools sh p' sh'
      → IsRuled p'
  Looked-IsRuled (turned_down outcome result l' same) = tt
  Looked-IsRuled (taken tool l' same found fits sat free) = tt

  Looked-Forwards :
      {rule : ToolPolicy} {l : Locals} {tools : List Tool} {sh : Shared} {p' : Point} {sh' : Shared}
      → resolve_tool_policy config.policy r.principal r.tool_name ≡ some rule
      → Looked rt config r rule l tools sh p' sh'
      → Forwards sh sh'
  Looked-Forwards resolved (turned_down outcome result l' same) = inl refl
  Looked-Forwards {rule} {sh = sh} resolved (taken tool l' same found fits sat free) =
      elim (placed-cases config.upstream_call_timeout r.tool_name r.arguments (calls_of sh)) [
        | inr (timeless, nothing) ↦ inl nothing
        | inl (timely, once) ↦ inr (
          once,
          (
            rule,
            (resolve_tool_policy_iff config.policy r.principal r.tool_name rule).0 resolved,
            (evaluate_argument_policy_iff rt.fullmatch rule r.arguments).0 sat,
          ),
        )
      ]

  after_emit-IsRuled :
      (o : Outcome (Unit {0})) (result : Outcome CallToolResult) (l : Locals)
      → IsRuled (after_emit rt config r o result l)
  after_emit-IsRuled (ok u) result l = tt
  after_emit-IsRuled (raised e) result l = tt

  leave-forwarded : (b : Bool) (g : Gateway) → (leave rt config r b g).forwarded ≡ g.forwarded
  leave-forwarded true g = refl
  leave-forwarded false g = refl

  writing-forwarded :
      (out : AuditOutcome) (att : Bool) (cat : Option Category) (l : Locals) (sh : Shared)
      → (writing rt config r out att cat l sh).1.gateway.forwarded ≡ calls_of sh
  writing-forwarded out att cat l sh =
      ap (λ (g : Gateway). g.forwarded)
        (emit-SameButLog rt config r.surroundings r.principal r.tool_name r.arguments out att cat
          (record { gateway = sh.gateway; locals = l }))

  pub Move-IsRuled :
      {p : Point} {sh : Shared} {p' : Point} {sh' : Shared}
      → Move rt config r p sh p' sh'
      → IsRuled p
      → IsRuled p'
  Move-IsRuled (begin sh limiter b) h = Begun-IsRuled b
  Move-IsRuled (give_up rule l sh e) h = tt
  Move-IsRuled (fetch rule l sh free unset) h = h
  Move-IsRuled (cached rule l sh tools free full looked) h = Looked-IsRuled looked
  Move-IsRuled (fetch_failed rule l sh e failed) h = tt
  Move-IsRuled (fetch_done rule l sh tools had looked) h = Looked-IsRuled looked
  Move-IsRuled (answer l l' sh outcome category result same) h = tt
  Move-IsRuled (write b outcome attempted category result l sh) h =
      after_emit-IsRuled (writing rt config r outcome attempted category l sh).0 result _
  Move-IsRuled (recover e l sh) h = tt

  pub Move-Forwards :
      {p : Point} {sh : Shared} {p' : Point} {sh' : Shared}
      → Move rt config r p sh p' sh'
      → IsRuled p
      → Forwards sh sh'
  Move-Forwards (begin sh limiter b) h = inl refl
  Move-Forwards (give_up rule l sh e) h = inl refl
  Move-Forwards (fetch rule l sh free unset) h = inl refl
  Move-Forwards (cached rule l sh tools free full looked) h = Looked-Forwards h looked
  Move-Forwards (fetch_failed rule l sh e failed) h = inl refl
  Move-Forwards (fetch_done rule l sh tools had looked) h = Looked-Forwards h looked
  Move-Forwards (answer l l' sh outcome category result same) h = inl refl
  Move-Forwards (write b outcome attempted category result l sh) h =
      inl (leave-forwarded b _ ∙ writing-forwarded outcome attempted category l sh)
  Move-Forwards (recover e l sh) h = inl (writing-forwarded (outcome_of e) false none l sh)
