-- ===== src/Bridge/Flight/Moves.antt =====
-- The steps of one task of Flight, by what they find and what they change.
use sentinel_mcp.Prelude.{◌≡◌, ◌+◌, Bool, true, false, Option, none, some, List}
use sentinel_mcp.Exec.{Exn, Outcome, ok, raised}
use sentinel_mcp.Policy.Models.{ToolPolicy}
use sentinel_mcp.Policy.Engine.{resolve_tool_policy, evaluate_argument_policy}
use sentinel_mcp.Policy.Schema.{validate_input_schema}
use sentinel_mcp.Limits.RateLimiter.{RateLimiter}
use sentinel_mcp.Limits.Concurrency
use sentinel_mcp.Audit.Record.{AuditOutcome, Category}
use sentinel_mcp.Bridge.Results.{CallToolResult}
use sentinel_mcp.Bridge.State.{Tool, Runtime, Config, Request, Locals}
use sentinel_mcp.Bridge.Turns.{find_tool, placed, initial, outcome_of}
use sentinel_mcp.Bridge.Flight.{
  Shared, Point, ready, listing, fetching, calling, emitting, recovering, done, rejecting,
  after_emit, after_recovery, leave, writing,
}

module _ (rt : Runtime) (config : Config) (r : Request) where
  -- The first step: a token was asked for.
  pub data Begun : Point → Type 0 where
    broken : (e : Exn) → Begun (recovering e (initial r.surroundings))
    turned_away :
        (outcome : AuditOutcome) (result : CallToolResult) (l : Locals)
        → l.disk ≡ r.surroundings.disk
        → Begun (rejecting rt config r outcome result l)
    going :
        (rule : ToolPolicy) (l : Locals)
        → l.disk ≡ r.surroundings.disk
        → resolve_tool_policy config.policy r.principal r.tool_name ≡ some rule
        → Begun (listing rule l)

  -- The tool list is there: the call is turned down, or it takes a slot and goes to the upstream.
  pub data Looked (rule : ToolPolicy) (l : Locals) (tools : List Tool) (sh : Shared)
      : Point → Shared → Type 0 where
    turned_down :
        (outcome : AuditOutcome) (result : CallToolResult) (l' : Locals)
        → l'.disk ≡ l.disk
        → Looked rule l tools sh (rejecting rt config r outcome result l') sh
    taken :
        (tool : Tool) (l' : Locals)
        → l'.disk ≡ l.disk
        → find_tool r.tool_name tools ≡ some tool
        → validate_input_schema rt.validate tool.input_schema r.arguments ≡ none
        → evaluate_argument_policy rt.fullmatch rule r.arguments ≡ none
        → (Concurrency.try_acquire sh.gateway.concurrency_limiter r.principal).1 ≡ true
        → Looked rule l tools sh (calling l') (record sh {
          gateway = record sh.gateway {
            concurrency_limiter =
                (Concurrency.try_acquire sh.gateway.concurrency_limiter r.principal).0;
            forwarded =
                placed config.upstream_call_timeout r.tool_name r.arguments sh.gateway.forwarded;
          };
        })

  pub data Move : Point → Shared → Point → Shared → Type 0 where
    begin :
        (sh : Shared) (limiter : RateLimiter) {p : Point}
        → Begun p
        → Move ready sh p (record sh { gateway = record sh.gateway { rate_limiter = limiter } })
    give_up :
        (rule : ToolPolicy) (l : Locals) (sh : Shared) (e : Exn)
        → Move (listing rule l) sh (recovering e l) sh
    fetch :
        (rule : ToolPolicy) (l : Locals) (sh : Shared)
        → sh.locked ≡ false
        → sh.gateway.tools ≡ none
        → Move (listing rule l) sh (fetching rule l) (record sh { locked = true })
    cached :
        (rule : ToolPolicy) (l : Locals) (sh : Shared) (tools : List Tool) {p : Point}
        {sh' : Shared}
        → sh.locked ≡ false
        → sh.gateway.tools ≡ some tools
        → Looked rule l tools sh p sh'
        → Move (listing rule l) sh p sh'
    fetch_failed :
        (rule : ToolPolicy) (l : Locals) (sh : Shared) (e : Exn)
        → r.surroundings.listed ≡ raised e
        → Move (fetching rule l) sh (recovering e l) (record {
          gateway = record sh.gateway { fetches = sh.gateway.fetches + 1 };
          locked = false;
        })
    fetch_done :
        (rule : ToolPolicy) (l : Locals) (sh : Shared) (tools : List Tool) {p : Point}
        {sh' : Shared}
        → r.surroundings.listed ≡ ok tools
        → Looked rule l tools
            (record {
              gateway = record sh.gateway { fetches = sh.gateway.fetches + 1; tools = some tools };
              locked = false;
            })
            p
            sh'
        → Move (fetching rule l) sh p sh'
    answer :
        (l l' : Locals) (sh : Shared) (outcome : AuditOutcome) (category : Option Category)
        (result : Outcome CallToolResult)
        → l'.disk ≡ l.disk
        → Move (calling l) sh (emitting true outcome true category result l') sh
    write :
        (held : Bool) (outcome : AuditOutcome) (attempted : Bool) (category : Option Category)
        (result : Outcome CallToolResult) (l : Locals) (sh : Shared)
        → Move
            (emitting held outcome attempted category result l)
            sh
            (after_emit rt config r
              (writing rt config r outcome attempted category l sh).0
              result
              (writing rt config r outcome attempted category l sh).1.locals)
            (record sh {
              gateway =
                  leave rt config r held
                    (writing rt config r outcome attempted category l sh).1.gateway;
            })
    recover :
        (e : Exn) (l : Locals) (sh : Shared)
        → Move
            (recovering e l)
            sh
            (done
              (after_recovery rt config r (writing rt config r (outcome_of e) false none l sh).0 e))
            (record sh { gateway = (writing rt config r (outcome_of e) false none l sh).1.gateway })
