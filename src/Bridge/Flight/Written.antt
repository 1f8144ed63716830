-- ===== src/Bridge/Flight/Written.antt =====
-- Which audit records `handle_call_tool` (sentinelmcp/gateway/bridge.py) writes for the tasks of a World.
use sentinel_mcp.Prelude.{
  ◌≡◌, refl, sym, ap, ◌∙◌, Bool, false, Option, none, List, [], ◌∷◌, ◌++◌, String, arith,
}
use mathlib.Core.List.{append_assoc}
use sentinel_mcp.Exec.{Outcome, ok}
use sentinel_mcp.Audit.Record.{AuditOutcome, Category, AuditRecord}
use sentinel_mcp.Bridge.State.{Runtime, Config, Request, Locals, Turn}
use sentinel_mcp.Bridge.Turns.{outcome_of, write}
use sentinel_mcp.Bridge.CallTool.{emit, audit_record, line_of}
use sentinel_mcp.Bridge.Flight.{Shared, Point, done, writing}
use sentinel_mcp.Bridge.Flight.Moves.{
  Move, begin, give_up, fetch, cached, fetch_failed, fetch_done, answer,
}
use sentinel_mcp.Bridge.Flight.Moves
use sentinel_mcp.Bridge.Flight.Logs.{
  pending, ended, log_of, faulty-none, Begun-ended, Looked-log, Looked-ended, leave-log,
}
use sentinel_mcp.Bridge.Flight.World.{Task}

-- The request, if its task has ended.
abbrev pub ending : Request → Point → List Request
ending r (done result) = r ∷ []
ending r _ = []

-- The requests of the tasks that have ended.
abbrev pub ended_requests : List Task → List Request
ended_requests [] = []
ended_requests (t ∷ ts) = ending t.request t.point ++ ended_requests ts

pub ended_requests-append :
    (xs ys : List Task) → ended_requests (xs ++ ys) ≡ ended_requests xs ++ ended_requests ys
ended_requests-append [] ys = refl
ended_requests-append (x ∷ xs) ys =
    ap (λ rs. ending x.request x.point ++ rs) (ended_requests-append xs ys)
    ∙ sym (append_assoc (ending x.request x.point) (ended_requests xs) (ended_requests ys))

ended-ending : (r : Request) (p : Point) → ended p ≡ 0 → ending r p ≡ []
ended-ending r (done result) h = absurd (omega (arith, h))
ended-ending r _ h = refl

module _ (rt : Runtime) (config : Config) where
  -- The line is that of a record of the request: its correlation id, principal, tool name and arguments.
  abbrev pub IsRecordOf : Request → String → Type 0
  IsRecordOf r line =
      (written : AuditRecord) × (line
        ≡ line_of rt config r.surroundings r.principal r.tool_name r.arguments written)
      × (written.correlation_id ≡ r.surroundings.correlation_id)
      × (written.principal ≡ r.principal)
      × (written.tool_name ≡ r.tool_name)
      × (written.arguments ≡ r.arguments)

  module _ (r : Request) where
    -- A step writes the record with which its task ends, or none.
    pub data Tells (p : Point) (sh : Shared) (p' : Point) (sh' : Shared) : Type 0 where
      silent : log_of sh' ≡ log_of sh → ending r p' ≡ ending r p → Tells p sh p' sh'
      telling :
          (line : String)
          → log_of sh' ≡ log_of sh ++ line ∷ []
          → IsRecordOf r line
          → ending r p ≡ []
          → ending r p' ≡ r ∷ []
          → Tells p sh p' sh'

    module _ (out : AuditOutcome) (att : Bool) (cat : Option Category) (l : Locals)
        (sh : Shared) where
      abbrev wrote : Outcome (Unit {0}) × Turn
      wrote = writing rt config r out att cat l sh

      abbrev told : AuditRecord
      told = audit_record rt config r.surroundings r.principal r.tool_name r.arguments out att cat l

      abbrev line : String
      line = line_of rt config r.surroundings r.principal r.tool_name r.arguments told

      line-IsRecordOf : IsRecordOf r line
      line-IsRecordOf = (told, refl, refl, refl, refl, refl)

      writing-line :
          l.disk ≡ [] → (wrote.0 ≡ ok tt) × (wrote.1.gateway.log ≡ log_of sh ++ line ∷ [])
      unfolding emit write
      writing-line fine = rw fine (refl, refl)

    pub Move-Tells :
        {p : Point} {sh : Shared} {p' : Point} {sh' : Shared}
        → Move rt config r p sh p' sh'
        → pending r p ≡ 0
        → Tells p sh p' sh'
    Move-Tells (begin sh limiter b) fine =
        silent refl (ended-ending r _ (Begun-ended rt config r b))
    Move-Tells (give_up rule l sh e) fine = silent refl refl
    Move-Tells (fetch rule l sh free unset) fine = silent refl refl
    Move-Tells (cached rule l sh tools free full looked) fine =
        silent (Looked-log rt config r looked) (ended-ending r _ (Looked-ended rt config r looked))
    Move-Tells (fetch_failed rule l sh e failed) fine = silent refl refl
    Move-Tells (fetch_done rule l sh tools had looked) fine =
        silent (Looked-log rt config r looked) (ended-ending r _ (Looked-ended rt config r looked))
    Move-Tells (answer l l' sh outcome category result same) fine = silent refl refl
    Move-Tells (Moves.write b out att cat result l sh) fine =
        let (went_well, more) = writing-line out att cat l sh (faulty-none l.disk fine) in
        telling (line out att cat l sh)
          (leave-log rt config r b (wrote out att cat l sh).1.gateway ∙ more)
          (line-IsRecordOf out att cat l sh) refl (rw went_well refl)
    Move-Tells (Moves.recover e l sh) fine =
        let (went_well, more) =
          writing-line (outcome_of e) false none l sh (faulty-none l.disk fine) in
        telling (line (outcome_of e) false none l sh) more
          (line-IsRecordOf (outcome_of e) false none l sh) refl refl
