-- ===== src/Bridge/Flight/Advancing.antt =====
-- Every step of a task of Flight is one of its moves.
use sentinel_mcp.Prelude.{
  arith, if◌then◌else◌, ◌≡◌, refl, Bool, true, false, Option, none, some, List, Option-cases,
  Bool-cases, inl, inr,
}
use sentinel_mcp.Exec.{cancelled_error, timeout_error, error, Outcome, ok, raised}
use sentinel_mcp.Policy.Models.{ToolPolicy}
use sentinel_mcp.Policy.Engine.{resolve_tool_policy, evaluate_argument_policy}
use sentinel_mcp.Policy.Schema.{validate_input_schema}
use sentinel_mcp.Limits.Concurrency
use sentinel_mcp.Audit.Record.{passed}
use sentinel_mcp.Bridge.Results.{CallToolResult}
use sentinel_mcp.Bridge.State.{Tool, Runtime, Config, Request, Locals}
use sentinel_mcp.Bridge.Turns.{find_tool}
use sentinel_mcp.Bridge.CallTool.{take_token}
use sentinel_mcp.Bridge.Flight.{
  Shared, Point, ready, listing, fetching, calling, emitting, recovering, done, authorizing,
  started, enter, take_slot, check_arguments, check_schema, look_up, look, fetched, wait_for_lock,
  answered, advance,
}
use sentinel_mcp.Bridge.Flight.Moves.{
  Begun, broken, turned_away, going, Looked, turned_down, taken, Move, begin, give_up, fetch,
  cached, fetch_failed, fetch_done, answer, write, recover,
}

module _ (rt : Runtime) (config : Config) (r : Request) where
  try_acquire-refused :
      (sh : Shared)
      → (Concurrency.try_acquire sh.gateway.concurrency_limiter r.principal).1 ≡ false
      → (Concurrency.try_acquire sh.gateway.concurrency_limiter r.principal).0
        ≡ sh.gateway.concurrency_limiter
  unfolding Concurrency.try_acquire
  try_acquire-refused sh h = ground arith

  abbrev LookedAt : ToolPolicy → Locals → List Tool → Shared → Point × Shared → Type 0
  LookedAt rule l tools sh (p, sh') = Looked rt config r rule l tools sh p sh'

  take_slot-Looked :
      (rule : ToolPolicy) (l : Locals) (tools : List Tool) (tool : Tool) (l' : Locals) (sh : Shared)
      → l'.disk ≡ l.disk
      → find_tool r.tool_name tools ≡ some tool
      → validate_input_schema rt.validate tool.input_schema r.arguments ≡ none
      → evaluate_argument_policy rt.fullmatch rule r.arguments ≡ none
      → LookedAt rule l tools sh (take_slot rt config r l' sh)
  unfolding take_slot
  take_slot-Looked rule l tools tool l' sh same found fits sat =
      elim (Bool-cases (Concurrency.try_acquire sh.gateway.concurrency_limiter r.principal).1) [
        | inl free ↦ rw free (taken tool _ same found fits sat free)
        | inr full ↦ rw (full, try_acquire-refused sh full) (turned_down _ _ _ same)
      ]

  check_arguments-Looked :
      (rule : ToolPolicy) (l : Locals) (tools : List Tool) (tool : Tool) (l' : Locals) (sh : Shared)
      → l'.disk ≡ l.disk
      → find_tool r.tool_name tools ≡ some tool
      → validate_input_schema rt.validate tool.input_schema r.arguments ≡ none
      → LookedAt rule l tools sh (check_arguments rt config r rule l' sh)
  unfolding check_arguments
  check_arguments-Looked rule l tools tool l' sh same found fits =
      elim (Option-cases (evaluate_argument_policy rt.fullmatch rule r.arguments)) [
        | inr (violation, unmet) ↦ rw (unmet, check_arguments) (turned_down _ _ _ same)
        | inl sat ↦
            rw (sat, check_arguments)
              (take_slot-Looked rule l tools tool (record l' { policy_result = passed }) sh same
                found fits sat)
      ]

  check_schema-Looked :
      (rule : ToolPolicy) (l : Locals) (tools : List Tool) (tool : Tool) (l' : Locals) (sh : Shared)
      → l'.disk ≡ l.disk
      → find_tool r.tool_name tools ≡ some tool
      → LookedAt rule l tools sh (check_schema rt config r rule tool l' sh)
  unfolding check_schema
  check_schema-Looked rule l tools tool l' sh same found =
      elim (Option-cases (validate_input_schema rt.validate tool.input_schema r.arguments)) [
        | inr (reason, unfit) ↦ rw (unfit, check_schema) (turned_down _ _ _ same)
        | inl fits ↦
            rw (fits, check_schema)
              (check_arguments-Looked rule l tools tool
                (record l' {
                  schema_result = passed;
                  policy_latency_ms = some r.surroundings.policy_elapsed;
                })
                sh same found fits)
      ]

  look_up-Looked :
      (rule : ToolPolicy) (l : Locals) (tools : List Tool) (sh : Shared)
      → LookedAt rule l tools sh (look_up rt config r rule l tools sh)
  unfolding look_up
  look_up-Looked rule l tools sh = elim (Option-cases (find_tool r.tool_name tools)) [
    | inl missing ↦ rw (missing, look_up) (turned_down _ _ _ refl)
    | inr (tool, found) ↦
        rw (found, look_up) (check_schema-Looked rule l tools tool l sh refl found)
  ]

  abbrev MoveOf : Point → Shared → Option (Point × Shared) → Type 0
  MoveOf p sh none = Unit
  MoveOf p sh (some (p', sh')) = Move rt config r p sh p' sh'

  authorizing-Begun :
      (l : Locals) → l.disk ≡ r.surroundings.disk → Begun rt config r (authorizing rt config r l)
  unfolding authorizing
  authorizing-Begun l same =
      elim (Option-cases (resolve_tool_policy config.policy r.principal r.tool_name)) [
        | inl missing ↦ rw (missing, authorizing) (turned_away _ _ _ same)
        | inr (rule, resolved) ↦ rw (resolved, authorizing) (going rule l same resolved)
      ]

  started-Begun : (o : Outcome Bool) → Begun rt config r (started rt config r o)
  unfolding started
  started-Begun (raised e) = broken e
  started-Begun (ok true) = authorizing-Begun _ refl
  started-Begun (ok false) = turned_away _ _ _ refl

  enter-Move : (sh : Shared) → MoveOf ready sh (some (enter rt config r sh))
  unfolding enter take_token
  enter-Move sh = begin sh _ (started-Begun _)

  look-Move :
      (rule : ToolPolicy) (l : Locals) (tools : Option (List Tool)) (sh : Shared)
      → sh.locked ≡ false
      → sh.gateway.tools ≡ tools
      → MoveOf (listing rule l) sh (some (look rt config r rule l tools sh))
  unfolding look
  look-Move rule l none sh free empty = fetch rule l sh free empty
  look-Move rule l (some tools) sh free full =
      cached rule l sh tools free full (look_up-Looked rule l tools sh)

  lock-Move :
      (rule : ToolPolicy) (l : Locals) (busy : Bool) (sh : Shared)
      → sh.locked ≡ busy
      → MoveOf
          (listing rule l)
          sh
          (if busy then none else some (look rt config r rule l sh.gateway.tools sh))
  lock-Move rule l true sh h = tt
  lock-Move rule l false sh h = look-Move rule l sh.gateway.tools sh h refl

  wait_for_lock-Move :
      (rule : ToolPolicy) (l : Locals) (o : Outcome (Unit {0})) (sh : Shared)
      → MoveOf (listing rule l) sh (wait_for_lock rt config r rule l o sh)
  unfolding wait_for_lock
  wait_for_lock-Move rule l (raised e) sh = give_up rule l sh e
  wait_for_lock-Move rule l (ok u) sh = lock-Move rule l sh.locked sh refl

  fetched-Move :
      (rule : ToolPolicy) (l : Locals) (o : Outcome (List Tool)) (sh : Shared)
      → r.surroundings.listed ≡ o
      → MoveOf (fetching rule l) sh (some (fetched rt config r rule l o sh))
  unfolding fetched
  fetched-Move rule l (raised e) sh h = fetch_failed rule l sh e h
  fetched-Move rule l (ok tools) sh h = fetch_done rule l sh tools h (look_up-Looked rule l tools _)

  answered-Move :
      (l l' : Locals) (o : Outcome CallToolResult) (sh : Shared)
      → l'.disk ≡ l.disk
      → Move rt config r (calling l) sh (answered rt config r o l') sh
  unfolding answered
  answered-Move l l' (ok result) sh h = answer l l' sh _ _ _ h
  answered-Move l l' (raised timeout_error) sh h = answer l l' sh _ _ _ h
  answered-Move l l' (raised cancelled_error) sh h = answer l l' sh _ _ _ h
  answered-Move l l' (raised (error reason)) sh h = answer l l' sh _ _ _ h

  advance-MoveOf : (p : Point) (sh : Shared) → MoveOf p sh (advance rt config r p sh)
  unfolding advance
  advance-MoveOf ready sh = enter-Move sh
  advance-MoveOf (listing rule l) sh = wait_for_lock-Move rule l r.surroundings.lock_wait sh
  advance-MoveOf (fetching rule l) sh = fetched-Move rule l r.surroundings.listed sh refl
  advance-MoveOf (calling l) sh = answered-Move l _ _ sh refl
  advance-MoveOf (emitting held outcome attempted category result l) sh =
      write held outcome attempted category result l sh
  advance-MoveOf (recovering e l) sh = recover e l sh
  advance-MoveOf (done result) sh = tt

  -- Every step is one of the moves.
  pub advance-Move :
      (p p' : Point) (sh sh' : Shared)
      → advance rt config r p sh ≡ some (p', sh')
      → Move rt config r p sh p' sh'
  advance-Move p p' sh sh' e = rw e at (advance-MoveOf p sh)
