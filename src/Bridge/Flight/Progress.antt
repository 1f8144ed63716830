-- ===== src/Bridge/Flight/Progress.antt =====
-- How far the requests of a World get: the steps that `handle_call_tool` and `handle_list_tools`
-- (sentinelmcp/gateway/bridge.py) may have before them.
use sentinel_mcp.Prelude.{
  ℕ, suc, ◌+◌, ◌*◌, ◌≤◌, ◌<◌, ◌≡◌, ap, some, List, [], ◌∷◌, ◌++◌, arith, length, length-append,
  total, total-middle, total-append,
}
use sentinel_mcp.Exec.{Outcome, ok, raised}
use sentinel_mcp.Policy.Models.{ToolPolicy}
use sentinel_mcp.Bridge.Results.{CallToolResult}
use sentinel_mcp.Bridge.State.{Tool, Runtime, Config, Request, Locals}
use sentinel_mcp.Bridge.Flight.{
  Shared, Point, ready, listing, fetching, calling, emitting, recovering, done, after_emit, writing,
  advance,
}
use sentinel_mcp.Bridge.Flight.Moves.{
  Begun, broken, turned_away, going, Looked, turned_down, taken, Move, begin, give_up, fetch,
  cached, fetch_failed, fetch_done, answer, write, recover,
}
use sentinel_mcp.Bridge.Flight.Advancing.{advance-Move}
use sentinel_mcp.Bridge.Flight.Inquiry.{Stage, Lister, proceed}
use sentinel_mcp.Bridge.Flight.Inquiry.Proceeding.{distance, proceed-Proceeds, Proceeds-distance}
use sentinel_mcp.Bridge.Flight.World.{
  Task, World, moved, newcomer, relisted, enquirer, arrive, move, ask, list, Reach, here, next,
}

-- The steps that a task may have before it, at most.
abbrev pub rank : Point → ℕ
rank ready = 6
rank (listing rule l) = 5
rank (fetching rule l) = 4
rank (calling l) = 3
rank (emitting held outcome attempted category result l) = 2
rank (recovering e l) = 1
rank (done result) = 0

module _ (rt : Runtime) (config : Config) (r : Request) where
  Begun-rank : {p : Point} → Begun rt config r p → rank p < 6
  Begun-rank (broken e) = omega arith
  Begun-rank (turned_away outcome result l same) = omega arith
  Begun-rank (going rule l same resolved) = omega arith

  Looked-rank :
      {rule : ToolPolicy} {l : Locals} {tools : List Tool} {sh : Shared} {p' : Point} {sh' : Shared}
      → Looked rt config r rule l tools sh p' sh'
      → rank p' < 4
  Looked-rank (turned_down outcome result l' same) = omega arith
  Looked-rank (taken tool l' same found fits sat free) = omega arith

  after_emit-rank :
      (o : Outcome (Unit {0})) (result : Outcome CallToolResult) (l : Locals)
      → rank (after_emit rt config r o result l) < 2
  after_emit-rank (ok u) result l = omega arith
  after_emit-rank (raised e) result l = omega arith

  pub Move-rank :
      {p : Point} {sh : Shared} {p' : Point} {sh' : Shared}
      → Move rt config r p sh p' sh'
      → rank p' < rank p
  Move-rank (begin sh limiter b) = Begun-rank b
  Move-rank (give_up rule l sh e) = omega arith
  Move-rank (fetch rule l sh free unset) = omega arith
  Move-rank (cached rule l sh tools free full looked) = omega (arith, Looked-rank looked)
  Move-rank (fetch_failed rule l sh e failed) = omega arith
  Move-rank (fetch_done rule l sh tools had looked) = Looked-rank looked
  Move-rank (answer l l' sh outcome category result same) = omega arith
  Move-rank (write b outcome attempted category result l sh) =
      after_emit-rank (writing rt config r outcome attempted category l sh).0 result _
  Move-rank (recover e l sh) = omega arith

-- The steps that the tasks may have before them, at most.
abbrev pub work : List Task → ℕ
work = total (λ t. rank t.point)

-- The same of the `tools/list` requests.
abbrev pub list_work : List Lister → ℕ
list_work = total (λ l. distance l.stage)

abbrev pub work_of : World → ℕ
work_of w = work w.tasks + list_work w.listers

module _ (rt : Runtime) (config : Config) where
  -- A step that is not an arrival leaves fewer steps to take.
  pub work-moved :
      (w : World) (before : List Task) (t : Task) (after : List Task) (p : Point) (sh : Shared)
      → w.tasks ≡ before ++ t ∷ after
      → advance rt config t.request t.point w.shared ≡ some (p, sh)
      → work_of (moved w before t after p sh) < work_of w
  work-moved w before t after p sh split step = omega (
    arith,
    ap work split,
    total-middle (λ (x : Task). rank x.point) before t after,
    total-middle (λ (x : Task). rank x.point) before (record t { point = p }) after,
    Move-rank rt config t.request (advance-Move rt config t.request t.point p w.shared sh step),
  )

  pub work-relisted :
      (w : World) (before : List Lister) (l : Lister) (after : List Lister) (s : Stage)
      (sh : Shared)
      → w.listers ≡ before ++ l ∷ after
      → proceed config.policy l.inquiry l.stage w.shared ≡ some (s, sh)
      → work_of (relisted w before l after s sh) < work_of w
  work-relisted w before l after s sh split step = omega (
    arith,
    ap list_work split,
    total-middle (λ (x : Lister). distance x.stage) before l after,
    total-middle (λ (x : Lister). distance x.stage) before (record l { stage = s }) after,
    Proceeds-distance config.policy l.inquiry
        (proceed-Proceeds config.policy l.inquiry l.stage s w.shared sh step),
  )

  -- No request is lost in a step.
  pub length-moved :
      (w : World) (before : List Task) (t : Task) (after : List Task) (p : Point) (sh : Shared)
      → w.tasks ≡ before ++ t ∷ after
      → length (moved w before t after p sh).tasks ≡ length w.tasks
  length-moved w before t after p sh split = omega (
    arith,
    ap length split,
    length-append before (t ∷ after),
    length-append before (record t { point = p } ∷ after),
  )

  pub length-relisted :
      (w : World) (before : List Lister) (l : Lister) (after : List Lister) (s : Stage)
      (sh : Shared)
      → w.listers ≡ before ++ l ∷ after
      → length (relisted w before l after s sh).listers ≡ length w.listers
  length-relisted w before l after s sh split = omega (
    arith,
    ap length split,
    length-append before (l ∷ after),
    length-append before (record l { stage = s } ∷ after),
  )

  -- The steps of a run that are not arrivals.
  unfoldable pub moves : {w : World} {u : World} → Reach rt config w u → ℕ
  moves here = 0
  moves (next reached (arrive r)) = moves reached
  moves (next reached (ask i)) = moves reached
  moves (next reached (move before t after p sh split step)) = suc (moves reached)
  moves (next reached (list before l after s sh split step)) = suc (moves reached)

  -- Six steps for a call and two for a list.
  abbrev pub allowance : World → ℕ
  allowance w = 6 * length w.tasks + 2 * length w.listers

  moves-work :
      {w : World} {u : World} (reached : Reach rt config w u)
      → moves reached + work_of u + allowance w ≤ work_of w + allowance u
  unfolding moves
  moves-work here = omega arith
  moves-work (next {u} reached (arrive r)) = omega (
    arith,
    moves-work reached,
    total-append (λ (t : Task). rank t.point) u.tasks (newcomer r ∷ []),
    length-append u.tasks (newcomer r ∷ []),
  )
  moves-work (next {u} reached (ask i)) = omega (
    arith,
    moves-work reached,
    total-append (λ (l : Lister). distance l.stage) u.listers (enquirer i ∷ []),
    length-append u.listers (enquirer i ∷ []),
  )
  moves-work (next {u} reached (move before t after p sh split step)) = omega (
    arith,
    moves-work reached,
    work-moved u before t after p sh split step,
    length-moved u before t after p sh split,
  )
  moves-work (next {u} reached (list before l after s sh split step)) = omega (
    arith,
    moves-work reached,
    work-relisted u before l after s sh split step,
    length-relisted u before l after s sh split,
  )

  -- From a gateway without requests: a run takes at most six steps for each `tools/call` request that
  -- has arrived and two for each `tools/list` request, whatever the upstream, the clocks and the audit
  -- log do, and however the steps interleave.
  pub moves-le :
      {w : World} {u : World}
      → w.tasks ≡ []
      → w.listers ≡ []
      → (reached : Reach rt config w u) → moves reached ≤ 6 * length u.tasks + 2 * length u.listers
  moves-le no_tasks no_listers reached = omega (
    arith,
    moves-work reached,
    ap work no_tasks,
    ap length no_tasks,
    ap list_work no_listers,
    ap length no_listers,
  )
