-- ===== src/Bridge/Flight/Tokens.antt =====
-- What one step of a task asks of the rate limiter, and what it forwards (`handle_call_tool` of
-- sentinelmcp/gateway/bridge.py).
use sentinel_mcp.Prelude.{
  ℕ, ◌+◌, ◌-◌, ◌≤◌, ◌≡◌, refl, ap, ◌∙◌, inl, inr, Bool, true, false, Option, none, some, List, [],
  ◌∷◌, arith, length, Option-cases,
}
use sentinel_mcp.Exec.{Outcome, ok, raised}
use sentinel_mcp.Policy.Models.{ToolPolicy}
use sentinel_mcp.Policy.Engine.{resolve_tool_policy}
use sentinel_mcp.Limits.RateLimiter
use sentinel_mcp.Limits.RateLimiter.{RateLimiter}
use sentinel_mcp.Limits.RateLimiter.Isolation.{Attempt}
use sentinel_mcp.Limits.RateLimiter.Grants.{granted_by}
use sentinel_mcp.Audit.Record.{AuditOutcome, Category}
use sentinel_mcp.Bridge.Results.{CallToolResult}
use sentinel_mcp.Bridge.State.{Tool, Gateway, Runtime, Config, Request, Locals}
use sentinel_mcp.Bridge.Turns.{outcome_of}
use sentinel_mcp.Bridge.Placing.{length-placed_le}
use sentinel_mcp.Bridge.CallTool.{take_token}
use sentinel_mcp.Bridge.CallTool.Endings.{emit-SameButLog}
use sentinel_mcp.Bridge.Runs.{attempt_of}
use sentinel_mcp.Bridge.Flight.{
  Shared, Point, ready, listing, fetching, calling, emitting, recovering, done, authorizing,
  started, rate_passed, enter, after_emit, leave, writing, advance,
}
use sentinel_mcp.Bridge.Flight.Moves.{
  Looked, turned_down, taken, Move, begin, give_up, fetch, cached, fetch_failed, fetch_done, answer,
  write, recover,
}
use sentinel_mcp.Bridge.Flight.Advancing.{advance-Move}

-- One for a task that was granted its token and may still forward its call.
abbrev pub hopes : Point → ℕ
hopes (listing rule l) = 1
hopes (fetching rule l) = 1
hopes _ = 0

-- The attempt that a step makes at the rate limiter: the first step makes one.
abbrev pub entry : Request → Point → List Attempt
entry r ready = attempt_of r ∷ []
entry r _ = []

abbrev starts : Point → ℕ
starts ready = 1
starts _ = 0

abbrev pub sent : Shared → ℕ
sent sh = length sh.gateway.forwarded

module _ (rt : Runtime) (config : Config) (r : Request) where
  abbrev pub asked : RateLimiter → RateLimiter × Outcome Bool
  asked limiter =
      RateLimiter.try_acquire config.token limiter r.principal r.surroundings.created
        r.surroundings.now

  -- The limiter after the step, and the grant that it may have given.
  abbrev pub limiter_after : Point → RateLimiter → RateLimiter
  limiter_after ready limiter = (asked limiter).0
  limiter_after _ limiter = limiter

  abbrev pub grant : Point → RateLimiter → ℕ
  grant ready limiter = granted_by (asked limiter).1
  grant _ limiter = 0

  -- A step forwards a call, or may still do so, only on a token that was granted.
  pub record Tokens (p : Point) (sh : Shared) (p' : Point) (sh' : Shared) : Type 0 where
    pub limiter : sh'.gateway.rate_limiter ≡ limiter_after p sh.gateway.rate_limiter
    pub backed : (sent sh' - sent sh) + hopes p' ≤ hopes p + grant p sh.gateway.rate_limiter

  authorizing-hopes : (l : Locals) → hopes (authorizing rt config r l) ≤ 1
  unfolding authorizing
  authorizing-hopes l =
      elim (Option-cases (resolve_tool_policy config.policy r.principal r.tool_name)) [
        | inl missing ↦ rw (missing, authorizing) (omega arith)
        | inr (rule, resolved) ↦ rw (resolved, authorizing) (omega arith)
      ]

  started-hopes : (o : Outcome Bool) → hopes (started rt config r o) ≤ granted_by o
  unfolding started
  started-hopes (raised e) = omega arith
  started-hopes (ok true) = authorizing-hopes (rate_passed rt config r)
  started-hopes (ok false) = omega arith

  enter-Tokens : (sh : Shared) → Tokens ready sh (enter rt config r sh).0 (enter rt config r sh).1
  unfolding enter take_token
  enter-Tokens sh = record {
    limiter = refl;
    backed = omega (arith, started-hopes (asked sh.gateway.rate_limiter).1);
  }

  Looked-sent :
      {rule : ToolPolicy} {l : Locals} {tools : List Tool} {sh : Shared} {p' : Point} {sh' : Shared}
      → Looked rt config r rule l tools sh p' sh'
      → (sh'.gateway.rate_limiter ≡ sh.gateway.rate_limiter) × ((sent sh' - sent sh) + hopes p' ≤ 1)
  Looked-sent (turned_down outcome result l' same) = (refl, omega arith)
  Looked-sent {sh} (taken tool l' same found fits sat free) = (
    refl,
    omega (
      arith,
      length-placed_le config.upstream_call_timeout r.tool_name r.arguments sh.gateway.forwarded,
    ),
  )

  module _ (out : AuditOutcome) (att : Bool) (cat : Option Category) (l : Locals)
      (sh : Shared) where
    writing-SameButLog :
        (writing rt config r out att cat l sh).1.gateway
        ≡ record sh.gateway { log = (writing rt config r out att cat l sh).1.gateway.log }
    writing-SameButLog =
        emit-SameButLog rt config r.surroundings r.principal r.tool_name r.arguments out att cat
          (record { gateway = sh.gateway; locals = l })

  leave-limiter : (b : Bool) (g : Gateway) → (leave rt config r b g).rate_limiter ≡ g.rate_limiter
  leave-limiter true g = refl
  leave-limiter false g = refl

  leave-forwarded : (b : Bool) (g : Gateway) → (leave rt config r b g).forwarded ≡ g.forwarded
  leave-forwarded true g = refl
  leave-forwarded false g = refl

  after_emit-hopes :
      (o : Outcome (Unit {0})) (result : Outcome CallToolResult) (l : Locals)
      → hopes (after_emit rt config r o result l) ≡ 0
  after_emit-hopes (ok u) result l = refl
  after_emit-hopes (raised e) result l = refl

  -- A step that leaves the limiter alone.
  quiet-Tokens :
      (p p' : Point) (sh sh' : Shared)
      → starts p ≡ 0
      → sh'.gateway.rate_limiter ≡ sh.gateway.rate_limiter
      → (sent sh' - sent sh) + hopes p' ≤ hopes p
      → Tokens p sh p' sh'
  quiet-Tokens ready p' sh sh' later same low = absurd (omega (arith, later))
  quiet-Tokens (listing rule l) p' sh sh' later same low = record {
    limiter = same;
    backed = omega (arith, low);
  }
  quiet-Tokens (fetching rule l) p' sh sh' later same low = record {
    limiter = same;
    backed = omega (arith, low);
  }
  quiet-Tokens (calling l) p' sh sh' later same low = record {
    limiter = same;
    backed = omega (arith, low);
  }
  quiet-Tokens (emitting held outcome attempted category result l) p' sh sh' later same low =
      record { limiter = same; backed = omega (arith, low) }
  quiet-Tokens (recovering e l) p' sh sh' later same low = record {
    limiter = same;
    backed = omega (arith, low);
  }
  quiet-Tokens (done result) p' sh sh' later same low = record {
    limiter = same;
    backed = omega (arith, low);
  }

  Move-Tokens :
      {p : Point} {sh : Shared} {p' : Point} {sh' : Shared}
      → Move rt config r p sh p' sh'
      → starts p ≡ 0
      → Tokens p sh p' sh'
  Move-Tokens (begin sh limiter b) later = absurd (omega (arith, later))
  Move-Tokens (give_up rule l sh e) later = quiet-Tokens _ _ _ _ refl refl (omega arith)
  Move-Tokens (fetch rule l sh free unset) later = quiet-Tokens _ _ _ _ refl refl (omega arith)
  Move-Tokens (cached rule l sh tools free full looked) later =
      let (same, low) = Looked-sent looked in quiet-Tokens _ _ _ _ refl same low
  Move-Tokens (fetch_failed rule l sh e failed) later = quiet-Tokens _ _ _ _ refl refl (omega arith)
  Move-Tokens (fetch_done rule l sh tools had looked) later =
      let (same, low) = Looked-sent looked in quiet-Tokens _ _ _ _ refl same low
  Move-Tokens (answer l l' sh outcome category result same) later =
      quiet-Tokens _ _ _ _ refl refl (omega arith)
  Move-Tokens (write b outcome attempted category result l sh) later =
      let wrote = writing-SameButLog outcome attempted category l sh in
      quiet-Tokens _ _ _ _ refl (leave-limiter b _ ∙ ap (λ (g : Gateway). g.rate_limiter) wrote) (
        omega (
          arith,
          ap length
              (leave-forwarded b (writing rt config r outcome attempted category l sh).1.gateway),
          ap (λ (g : Gateway). length g.forwarded) wrote,
          after_emit-hopes (writing rt config r outcome attempted category l sh).0 result
              (writing rt config r outcome attempted category l sh).1.locals,
        ))
  Move-Tokens (recover e l sh) later =
      let wrote = writing-SameButLog (outcome_of e) false none l sh in
      quiet-Tokens _ _ _ _ refl (ap (λ (g : Gateway). g.rate_limiter) wrote)
        (omega (arith, ap (λ (g : Gateway). length g.forwarded) wrote))

  abbrev TokensOf : Point → Shared → Option (Point × Shared) → Type 0
  TokensOf p sh none = Unit
  TokensOf p sh (some (p', sh')) = Tokens p sh p' sh'

  ready-TokensOf : (sh : Shared) → TokensOf ready sh (advance rt config r ready sh)
  unfolding advance
  ready-TokensOf sh = enter-Tokens sh

  pub advance-Tokens :
      (p p' : Point) (sh sh' : Shared)
      → advance rt config r p sh ≡ some (p', sh')
      → Tokens p sh p' sh'
  advance-Tokens ready p' sh sh' e = rw e at (ready-TokensOf sh)
  advance-Tokens (listing rule l) p' sh sh' e =
      Move-Tokens (advance-Move rt config r (listing rule l) p' sh sh' e) refl
  advance-Tokens (fetching rule l) p' sh sh' e =
      Move-Tokens (advance-Move rt config r (fetching rule l) p' sh sh' e) refl
  advance-Tokens (calling l) p' sh sh' e =
      Move-Tokens (advance-Move rt config r (calling l) p' sh sh' e) refl
  advance-Tokens (emitting held outcome attempted category result l) p' sh sh' e =
      Move-Tokens
        (advance-Move rt config r (emitting held outcome attempted category result l) p' sh sh' e)
        refl
  advance-Tokens (recovering x l) p' sh sh' e =
      Move-Tokens (advance-Move rt config r (recovering x l) p' sh sh' e) refl
  advance-Tokens (done result) p' sh sh' e =
      Move-Tokens (advance-Move rt config r (done result) p' sh sh' e) refl
