-- ===== src/Bridge/Flight/Logs.antt =====
-- What one step of a task does to the audit log of `handle_call_tool` (sentinelmcp/gateway/bridge.py).
use sentinel_mcp.Prelude.{
  ℕ, ◌+◌, ◌≤◌, ◌≡◌, refl, ap, Bool, true, false, Option, none, List, [], ◌∷◌, arith, String, length,
  length-append,
}
use sentinel_mcp.Exec.{Outcome, ok}
use sentinel_mcp.Policy.Models.{ToolPolicy}
use sentinel_mcp.Audit.Record.{AuditOutcome, Category}
use sentinel_mcp.Bridge.Results.{CallToolResult}
use sentinel_mcp.Bridge.State.{
  Tool, Gateway, Runtime, Config, Fate, written, lost, written_but, Request, Locals, Turn,
}
use sentinel_mcp.Bridge.Turns.{outcome_of, write}
use sentinel_mcp.Bridge.CallTool.{emit}
use sentinel_mcp.Bridge.Flight.{
  Shared, Point, ready, listing, fetching, calling, emitting, recovering, done, after_emit, leave,
  writing,
}
use sentinel_mcp.Bridge.Flight.Moves.{
  Begun, broken, turned_away, going, Looked, turned_down, taken, Move, begin, give_up, fetch,
  cached, fetch_failed, fetch_done, answer,
}
use sentinel_mcp.Bridge.Flight.Moves

-- One where writes are still to go wrong.
abbrev pub faulty : List Fate → ℕ
faulty [] = 0
faulty (fate ∷ rest) = 1

-- The same, of the writes that the task has before it.
abbrev pub pending : Request → Point → ℕ
pending r ready = faulty r.surroundings.disk
pending r (listing rule l) = faulty l.disk
pending r (fetching rule l) = faulty l.disk
pending r (calling l) = faulty l.disk
pending r (emitting held outcome attempted category result l) = faulty l.disk
pending r (recovering e l) = faulty l.disk
pending r (done result) = 0

-- One for a task that has ended.
abbrev pub ended : Point → ℕ
ended (done result) = 1
ended _ = 0

abbrev pub log_of : Shared → List String
log_of sh = sh.gateway.log

pub faulty-none : (fates : List Fate) → faulty fates ≡ 0 → fates ≡ []
faulty-none [] h = refl
faulty-none (fate ∷ rest) h = absurd (omega (arith, h))

module _ (rt : Runtime) (config : Config) (r : Request) where
  pub record Logs (p : Point) (sh : Shared) (p' : Point) (sh' : Shared) : Type 0 where
    pub faults : pending r p' ≤ pending r p
    pub logged : pending r p ≡ 0 → length (log_of sh') + ended p ≡ length (log_of sh) + ended p'

  -- A step that writes nothing.
  silent-Logs :
      (p p' : Point) (sh sh' : Shared)
      → log_of sh' ≡ log_of sh
      → ended p' ≡ ended p
      → pending r p' ≡ pending r p
      → Logs p sh p' sh'
  silent-Logs p p' sh sh' same as_ended as_pending = record {
    faults = omega (arith, as_pending);
    logged = λ h. rw (same, as_ended) refl;
  }

  pub Begun-ended : {p : Point} → Begun rt config r p → ended p ≡ 0
  Begun-ended (broken e) = refl
  Begun-ended (turned_away outcome result l same) = refl
  Begun-ended (going rule l same resolved) = refl

  Begun-pending : {p : Point} → Begun rt config r p → pending r p ≡ pending r ready
  Begun-pending (broken e) = refl
  Begun-pending (turned_away outcome result l same) = ap faulty same
  Begun-pending (going rule l same resolved) = ap faulty same

  pub Looked-log :
      {rule : ToolPolicy} {l : Locals} {tools : List Tool} {sh : Shared} {p' : Point} {sh' : Shared}
      → Looked rt config r rule l tools sh p' sh'
      → log_of sh' ≡ log_of sh
  Looked-log (turned_down outcome result l' same) = refl
  Looked-log (taken tool l' same found fits sat free) = refl

  pub Looked-ended :
      {rule : ToolPolicy} {l : Locals} {tools : List Tool} {sh : Shared} {p' : Point} {sh' : Shared}
      → Looked rt config r rule l tools sh p' sh'
      → ended p' ≡ 0
  Looked-ended (turned_down outcome result l' same) = refl
  Looked-ended (taken tool l' same found fits sat free) = refl

  Looked-pending :
      {rule : ToolPolicy} {l : Locals} {tools : List Tool} {sh : Shared} {p' : Point} {sh' : Shared}
      → Looked rt config r rule l tools sh p' sh'
      → pending r p' ≡ faulty l.disk
  Looked-pending (turned_down outcome result l' same) = ap faulty same
  Looked-pending (taken tool l' same found fits sat free) = ap faulty same

  pub leave-log : (b : Bool) (g : Gateway) → (leave rt config r b g).log ≡ g.log
  leave-log true g = refl
  leave-log false g = refl

  module _ (out : AuditOutcome) (att : Bool) (cat : Option Category) (l : Locals)
      (sh : Shared) where
    abbrev wrote : Outcome (Unit {0}) × Turn
    wrote = writing rt config r out att cat l sh

    writing-fine :
        l.disk ≡ [] → (wrote.0 ≡ ok tt) × (length wrote.1.gateway.log ≡ length (log_of sh) + 1)
    unfolding emit write
    writing-fine fine = rw fine (refl, length-append (log_of sh) _)

    wrote_from :
        (fates : List Fate) (result : Outcome CallToolResult)
        → l.disk ≡ fates
        → pending r (after_emit rt config r wrote.0 result wrote.1.locals) ≤ faulty fates
    unfolding emit write
    wrote_from [] result e = rw e (omega arith)
    wrote_from (written ∷ rest) result e = rw e (omega arith)
    wrote_from (lost x ∷ []) result e = rw e (omega arith)
    wrote_from (lost x ∷ f ∷ rest) result e = rw e (omega arith)
    wrote_from (written_but x ∷ []) result e = rw e (omega arith)
    wrote_from (written_but x ∷ f ∷ rest) result e = rw e (omega arith)

    -- A write that raises was a faulty one.
    writing-pending :
        (result : Outcome CallToolResult)
        → pending r (after_emit rt config r wrote.0 result wrote.1.locals) ≤ faulty l.disk
    writing-pending result = wrote_from l.disk result refl

  pub Move-Logs :
      {p : Point} {sh : Shared} {p' : Point} {sh' : Shared}
      → Move rt config r p sh p' sh'
      → Logs p sh p' sh'
  Move-Logs (begin sh limiter b) = silent-Logs _ _ _ _ refl (Begun-ended b) (Begun-pending b)
  Move-Logs (give_up rule l sh e) = silent-Logs _ _ _ _ refl refl refl
  Move-Logs (fetch rule l sh free unset) = silent-Logs _ _ _ _ refl refl refl
  Move-Logs (cached rule l sh tools free full looked) =
      silent-Logs _ _ _ _ (Looked-log looked) (Looked-ended looked) (Looked-pending looked)
  Move-Logs (fetch_failed rule l sh e failed) = silent-Logs _ _ _ _ refl refl refl
  Move-Logs (fetch_done rule l sh tools had looked) =
      silent-Logs _ _ _ _ (Looked-log looked) (Looked-ended looked) (Looked-pending looked)
  Move-Logs (answer l l' sh outcome category result same) =
      silent-Logs _ _ _ _ refl refl (ap faulty same)
  Move-Logs (Moves.write b out att cat result l sh) = record {
    faults = writing-pending out att cat l sh result;
    logged = λ h.
        let (fine, more) = writing-fine out att cat l sh (faulty-none l.disk h) in
        rw fine (omega (arith, more, ap length (leave-log b (wrote out att cat l sh).1.gateway)));
  }
  Move-Logs (Moves.recover e l sh) = record {
    faults = omega arith;
    logged = λ h.
        let (fine, more) = writing-fine (outcome_of e) false none l sh (faulty-none l.disk h) in
        omega (arith, more);
  }
