-- ===== src/Bridge/CallTool/Endings.antt =====
-- What an attempt of `handle_call_tool` (sentinelmcp/gateway/bridge.py) leaves of the gateway, its audit
-- log aside, for each exit.
use sentinel_mcp.Prelude.{◌≡◌, refl, ap, ◌∙◌, Bool, Option, String, arith}
use sentinel_mcp.Json.{Fields}
use sentinel_mcp.Exec.{Exn, cancelled_error, timeout_error, error, Outcome, ok, raised}
use sentinel_mcp.Audit.Record.{AuditOutcome, Category}
use sentinel_mcp.Bridge.Results.{CallToolResult}
use sentinel_mcp.Bridge.State.{Gateway, Runtime, Config, Surroundings, Locals, Turn}
use sentinel_mcp.Bridge.Turns.{initial, write}
use sentinel_mcp.Bridge.CallTool.{emit, reject, conclude, recover, pipeline, attempt}
use sentinel_mcp.Bridge.CallTool.Exits
use sentinel_mcp.Bridge.CallTool.Exits.Reached.{pipeline-Exit}
use sentinel_mcp.Limits.Concurrency

-- The same gateway but for the log.
abbrev pub SameButLog : Gateway → Gateway → Type 0
SameButLog g g' = g' ≡ record g { log = g'.log }

write-SameButLog : (line : String) (t : Turn) → SameButLog t.gateway (write line t).1.gateway
unfolding write
write-SameButLog line t = ground arith

SameButLog-trans : (a b c : Gateway) → SameButLog a b → SameButLog b c → SameButLog a c
SameButLog-trans a b c h k = k ∙ ap (λ (x : Gateway). record x { log = c.log }) h

module _ (rt : Runtime) (config : Config) (s : Surroundings) (principal tool_name : String)
    (arguments : Fields) where
  pub emit-SameButLog :
      (out : AuditOutcome) (att : Bool) (cat : Option Category) (t : Turn)
      → SameButLog t.gateway
          (emit rt config s principal tool_name arguments out att cat t).1.gateway
  unfolding emit
  emit-SameButLog out att cat t = ground arith

  reject-SameButLog :
      (out : AuditOutcome) (result : CallToolResult) (t : Turn)
      → SameButLog t.gateway
          (reject rt config s principal tool_name arguments out result t).1.gateway
  unfolding reject
  reject-SameButLog out result t = ground arith

  conclude-SameButLog :
      (o : Outcome CallToolResult) (t : Turn)
      → SameButLog t.gateway (conclude rt config s principal tool_name arguments o t).1.gateway
  unfolding conclude
  conclude-SameButLog (ok result) t = ground arith
  conclude-SameButLog (raised cancelled_error) t = ground arith
  conclude-SameButLog (raised timeout_error) t = ground arith
  conclude-SameButLog (raised (error reason)) t = ground arith

  recover-SameButLog :
      (o : Outcome CallToolResult) (t : Turn)
      → SameButLog t.gateway (recover rt config s principal tool_name arguments o t).1.gateway
  unfolding recover
  recover-SameButLog (ok result) t = refl
  recover-SameButLog (raised e) t = ground arith

  module _ (g : Gateway) where
    -- The gateway after an attempt: that of its exit, with the audit lines in its log.
    pub data Ending (g' : Gateway) : Type 0 where
      stopped :
          (e : Exn) (gx : Gateway) (l : Locals)
          → Exits.Crash rt config s principal tool_name arguments g e gx l
          → SameButLog gx g'
          → Ending g'
      turned_down :
          (out : AuditOutcome) (result : CallToolResult) (gx : Gateway) (l : Locals)
          → Exits.Rejection rt config s principal tool_name arguments g out result gx l
          → SameButLog gx g'
          → Ending g'
      carried_out :
          Exits.Cleared rt config s principal tool_name arguments g
          → SameButLog
              (Exits.released rt config s principal tool_name arguments g
                (Exits.answered_turn rt config s principal tool_name arguments g)).gateway
              g'
          → Ending g'

    abbrev answered_turn : Turn
    answered_turn = Exits.answered_turn rt config s principal tool_name arguments g

    abbrev answer : Outcome CallToolResult
    answer = Exits.answer rt config s principal tool_name arguments g

    -- The slot is given back.
    abbrev give_back : Gateway → Gateway
    give_back x = record x {
      concurrency_limiter = Concurrency.release x.concurrency_limiter principal;
    }

    abbrev settled : Gateway
    settled = give_back answered_turn.gateway

    abbrev start : Turn
    start = record { gateway = g; locals = initial s }

    abbrev piped : Outcome CallToolResult × Turn
    piped = pipeline rt config s principal tool_name arguments start

    -- From the exit of the pipeline to the end of the attempt.
    attempt_after :
        (gx : Gateway)
        → SameButLog gx piped.1.gateway
        → SameButLog gx (attempt rt config s principal tool_name arguments g).1
    unfolding attempt
    attempt_after gx h =
        SameButLog-trans gx piped.1.gateway _ h (recover-SameButLog piped.0 piped.1)

    pub attempt-Ending : Ending (attempt rt config s principal tool_name arguments g).1
    attempt-Ending = elim (pipeline-Exit rt config s principal tool_name arguments g) [
      | Exits.crashed e gx l c same ↦ stopped e gx l c (attempt_after gx (rw same refl))
      | Exits.rejected out result gx l c same ↦ turned_down out result gx l c (
          attempt_after gx
            (rw same (reject-SameButLog out result (record { gateway = gx; locals = l }))))
      | Exits.executed c same ↦ carried_out c (
          attempt_after settled (rw same (ap give_back (conclude-SameButLog answer answered_turn))))
    ]
