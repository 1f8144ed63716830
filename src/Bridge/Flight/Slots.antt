-- ===== src/Bridge/Flight/Slots.antt =====
-- The slots of `ConcurrencyLimiter` (sentinelmcp/gateway/limits.py) among the tasks of a World.
use sentinel_mcp.Prelude.{
  ℕ, ◌+◌, ◌≤◌, ◌≡◌, refl, sym, ap, ◌∙◌, Bool, true, false, Option, none, List, [], ◌∷◌, ◌++◌,
  String, arith, str_eq, eq_iff, if◌then◌else◌, total, total-middle, total-append,
}
use sentinel_mcp.Exec.{Outcome, ok, raised}
use sentinel_mcp.Policy.Models.{ToolPolicy}
use sentinel_mcp.Limits.Concurrency.{ConcurrencyLimiter, active_count}
use sentinel_mcp.Limits.Concurrency.Holders.{
  max-try_acquire, max-release, active-try_acquire_le, active-try_acquire, active-release,
}
use sentinel_mcp.Audit.Record.{AuditOutcome, Category}
use sentinel_mcp.Bridge.Results.{CallToolResult}
use sentinel_mcp.Bridge.State.{Tool, Gateway, Runtime, Config, Request, Locals}
use sentinel_mcp.Bridge.Turns.{outcome_of}
use sentinel_mcp.Bridge.CallTool.Endings.{emit-SameButLog}
use sentinel_mcp.Bridge.Flight.{
  Shared, Point, ready, fetching, calling, emitting, after_emit, leave, writing,
}
use sentinel_mcp.Bridge.Flight.Moves.{
  Begun, broken, turned_away, going, Looked, turned_down, taken, Move, begin, give_up, fetch,
  cached, fetch_failed, fetch_done, answer, write, recover,
}
use sentinel_mcp.Bridge.Flight.Advancing.{advance-Move}
use sentinel_mcp.Bridge.Flight.Inquiry.Proceeding.{proceed-Proceeds, Proceeds-Leaves}
use sentinel_mcp.Bridge.Flight.World.{
  Task, World, arrived, Step, arrive, move, ask, list, Reach, here, next,
}

-- How many slots a task holds.
abbrev pub slots : Point → ℕ
slots (calling l) = 1
slots (emitting held outcome attempted category result l) = if held then 1 else 0
slots _ = 0

-- The slots that a task holds of one principal's.
abbrev pub holds : String → Request → Point → ℕ
holds q r p = if str_eq r.principal q then slots p else 0

abbrev limiter_of : Shared → ConcurrencyLimiter
limiter_of sh = sh.gateway.concurrency_limiter

module _ (rt : Runtime) (config : Config) (r : Request) (q : String) where
  -- What a step does to one principal's count and to the ceiling, `others` being the slots of the other
  -- tasks.
  pub record Keeps (p : Point) (sh : Shared) (p' : Point) (sh' : Shared) : Type 0 where
    pub ceiling : (limiter_of sh').max_concurrent ≡ (limiter_of sh).max_concurrent
    pub below :
        active_count (limiter_of sh) q ≤ (limiter_of sh).max_concurrent
        → active_count (limiter_of sh') q ≤ (limiter_of sh').max_concurrent
    pub counted :
        (others : ℕ)
        → active_count (limiter_of sh) q ≡ others + holds q r p
        → active_count (limiter_of sh') q ≡ others + holds q r p'

  Begun-slots : {p : Point} → Begun rt config r p → slots p ≡ 0
  Begun-slots (broken e) = refl
  Begun-slots (turned_away outcome result l same) = refl
  Begun-slots (going rule l same resolved) = refl

  after_emit-slots :
      (o : Outcome (Unit {0})) (result : Outcome CallToolResult) (l : Locals)
      → slots (after_emit rt config r o result l) ≡ 0
  after_emit-slots (ok u) result l = refl
  after_emit-slots (raised e) result l = refl

  writing-limiter :
      (out : AuditOutcome) (att : Bool) (cat : Option Category) (l : Locals) (sh : Shared)
      → (writing rt config r out att cat l sh).1.gateway.concurrency_limiter ≡ limiter_of sh
  writing-limiter out att cat l sh =
      ap (λ (g : Gateway). g.concurrency_limiter)
        (emit-SameButLog rt config r.surroundings r.principal r.tool_name r.arguments out att cat
          (record { gateway = sh.gateway; locals = l }))

  quiet-Keeps :
      (p p' : Point) (sh sh' : Shared)
      → limiter_of sh' ≡ limiter_of sh
      → slots p' ≡ slots p
      → Keeps p sh p' sh'
  quiet-Keeps p p' sh sh' same as_many = record {
    ceiling = ap (λ (c : ConcurrencyLimiter). c.max_concurrent) same;
    below = λ h. rw same h;
    counted = λ others h. rw (same, as_many) h;
  }

  Looked-Keeps :
      {rule : ToolPolicy} {l : Locals} {tools : List Tool} {sh : Shared} {p' : Point} {sh' : Shared}
      (p : Point)
      → slots p ≡ 0
      → Looked rt config r rule l tools sh p' sh'
      → Keeps p sh p' sh'
  Looked-Keeps {sh = sh} p none_held (turned_down outcome result l' same) =
      quiet-Keeps p _ sh sh refl (sym none_held)
  Looked-Keeps {sh = sh} p none_held (taken tool l' same found fits sat free) = record {
    ceiling = max-try_acquire (limiter_of sh) r.principal;
    below = λ h. active-try_acquire_le (limiter_of sh) r.principal q h;
    counted = λ others h. ground (
      arith,
      h,
      none_held,
      free,
      active-try_acquire (limiter_of sh) r.principal q,
      eq_iff r.principal q,
    );
  }

  leave-Keeps :
      (held : Bool) (out : AuditOutcome) (att : Bool) (cat : Option Category)
      (result : Outcome CallToolResult) (l : Locals) (p' : Point) (sh : Shared) (g : Gateway)
      → g.concurrency_limiter ≡ limiter_of sh
      → slots p' ≡ 0
      → Keeps
          (emitting held out att cat result l)
          sh
          p'
          (record sh { gateway = leave rt config r held g })
  leave-Keeps false out att cat result l p' sh g same none_held =
      quiet-Keeps _ p' sh _ same none_held
  leave-Keeps true out att cat result l p' sh g same none_held = record {
    ceiling =
        max-release g.concurrency_limiter r.principal
        ∙ ap (λ (c : ConcurrencyLimiter). c.max_concurrent) same;
    below = λ h. rw same (
        omega (
          arith,
          h,
          active-release (limiter_of sh) r.principal q,
          max-release (limiter_of sh) r.principal,
        ));
    counted = λ others h.
        rw same (ground (arith, h, none_held, active-release (limiter_of sh) r.principal q));
  }

  Move-Keeps :
      {p : Point} {sh : Shared} {p' : Point} {sh' : Shared}
      → Move rt config r p sh p' sh'
      → Keeps p sh p' sh'
  Move-Keeps (begin sh limiter b) = quiet-Keeps _ _ _ _ refl (Begun-slots b)
  Move-Keeps (give_up rule l sh e) = quiet-Keeps _ _ _ _ refl refl
  Move-Keeps (fetch rule l sh free empty) = quiet-Keeps _ _ _ _ refl refl
  Move-Keeps (cached rule l sh tools free full looked) = Looked-Keeps _ refl looked
  Move-Keeps (fetch_failed rule l sh e failed) = quiet-Keeps _ _ _ _ refl refl
  Move-Keeps (fetch_done rule l sh tools had looked) =
      let k = Looked-Keeps (fetching rule l) refl looked in
      record { ceiling = k.ceiling; below = k.below; counted = k.counted }
  Move-Keeps (answer l l' sh outcome category result same) = quiet-Keeps _ _ _ _ refl refl
  Move-Keeps (write held outcome attempted category result l sh) =
      leave-Keeps held outcome attempted category result l _ sh _
        (writing-limiter outcome attempted category l sh)
        (after_emit-slots (writing rt config r outcome attempted category l sh).0 result _)
  Move-Keeps (recover e l sh) =
      quiet-Keeps _ _ _ _ (writing-limiter (outcome_of e) false none l sh) refl

-- The slots that the tasks hold of one principal's.
abbrev pub held : String → List Task → ℕ
held q = total (λ t. holds q t.request t.point)

-- The limiter's counts are the slots that the tasks hold, and no count is above the ceiling.
pub record IsExact (top : ℕ) (w : World) : Type 0 where
  pub ceiling : (limiter_of w.shared).max_concurrent ≡ top
  pub counted : (q : String) → active_count (limiter_of w.shared) q ≡ held q w.tasks
  pub below : (q : String) → active_count (limiter_of w.shared) q ≤ top

held-arrived : (q : String) (w : World) (r : Request) → held q (arrived w r).tasks ≡ held q w.tasks
held-arrived q w r = ground (
  arith,
  total-append (λ (t : Task). holds q t.request t.point) w.tasks
      (record { request = r; point = ready } ∷ []),
)

held-middle :
    (q : String) (before : List Task) (t : Task) (after : List Task)
    → held q (before ++ t ∷ after) ≡ held q (before ++ after) + holds q t.request t.point
held-middle q before t after = total-middle (λ t. holds q t.request t.point) before t after

module _ (rt : Runtime) (config : Config) (top : ℕ) where
  Step-IsExact : {w : World} {u : World} → Step rt config w u → IsExact top w → IsExact top u
  Step-IsExact {w} (arrive r) h = record {
    ceiling = h.ceiling;
    counted = λ q. h.counted q ∙ sym (held-arrived q w r);
    below = h.below;
  }
  Step-IsExact {w} (move before t after p sh split step) h =
      let kept = λ (q : String).
        Move-Keeps rt config t.request q
          (advance-Move rt config t.request t.point p w.shared sh step) in
      record {
        ceiling = (kept "").ceiling ∙ h.ceiling;
        counted = λ q.
            (kept q).counted (held q (before ++ after))
              (h.counted q ∙ ap (held q) split ∙ held-middle q before t after)
            ∙ sym (held-middle q before (record t { point = p }) after);
        below = λ q.
            let b = (kept q).below (omega (arith, h.below q, h.ceiling)) in
            omega (arith, b, (kept q).ceiling, h.ceiling);
      }
  Step-IsExact (ask i) h = record { ceiling = h.ceiling; counted = h.counted; below = h.below }
  Step-IsExact {w} (list before l after s sh split step) h =
      let kept =
        Proceeds-Leaves config.policy l.inquiry
          (proceed-Proceeds config.policy l.inquiry l.stage s w.shared sh step) in
      record {
        ceiling = rw kept.same_slots h.ceiling;
        counted = λ q. rw kept.same_slots (h.counted q);
        below = λ q. rw kept.same_slots (h.below q);
      }

  -- However the requests arrive and their steps interleave, and however each of them ends: the limiter's
  -- count of each principal is the number of slots that its tasks hold, and it is never above the
  -- ceiling.
  pub tasks-IsExact : {w : World} {u : World} → IsExact top w → Reach rt config w u → IsExact top u
  tasks-IsExact h here = h
  tasks-IsExact h (next r st) = Step-IsExact st (tasks-IsExact h r)

-- A call of the principal's that waits for the upstream.
abbrev is_calling : Point → ℕ
is_calling (calling l) = 1
is_calling _ = 0

abbrev pub calls : String → List Task → ℕ
calls q = total (λ t. if str_eq t.request.principal q then is_calling t.point else 0)

is_calling-le : (p : Point) → is_calling p ≤ slots p
is_calling-le (calling l) = omega arith
is_calling-le _ = omega arith

calls-le-held : (q : String) (tasks : List Task) → calls q tasks ≤ held q tasks
calls-le-held q [] = omega arith
calls-le-held q (t ∷ ts) = ground (arith, calls-le-held q ts, is_calling-le t.point)

-- At no time does the upstream have more calls of one principal than the ceiling allows, however the
-- requests arrive and their steps interleave, from any world where the counts are exact.
pub calls-le :
    (rt : Runtime) (config : Config) (top : ℕ) (w u : World) (q : String)
    → IsExact top w
    → Reach rt config w u
    → calls q u.tasks ≤ top
calls-le rt config top w u q h reached =
    let exact = tasks-IsExact rt config top h reached in
    omega (arith, calls-le-held q u.tasks, exact.counted q, exact.below q)
