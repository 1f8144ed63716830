-- ===== src/Bridge/Flight/Guards.antt =====
-- What one step of a task does to the lock and the contents of `UpstreamToolCache`
-- (sentinelmcp/gateway/bridge.py).
use sentinel_mcp.Prelude.{
  ℕ, ◌+◌, ◌≤◌, ◌≡◌, refl, ap, ◌∙◌, Bool, true, false, Option, none, some, List, arith,
  if◌then◌else◌,
}
use sentinel_mcp.Exec.{Outcome, ok, raised}
use sentinel_mcp.Policy.Models.{ToolPolicy}
use sentinel_mcp.Audit.Record.{AuditOutcome, Category}
use sentinel_mcp.Bridge.Results.{CallToolResult}
use sentinel_mcp.Bridge.State.{Tool, Gateway, Runtime, Config, Request, Locals}
use sentinel_mcp.Bridge.Turns.{outcome_of}
use sentinel_mcp.Bridge.CallTool.Endings.{emit-SameButLog}
use sentinel_mcp.Bridge.Flight.{Shared, Point, ready, listing, fetching, after_emit, leave, writing}
use sentinel_mcp.Bridge.Flight.Moves.{
  Begun, broken, turned_away, going, Looked, turned_down, taken, Move, begin, give_up, fetch,
  cached, fetch_failed, fetch_done, answer, write, recover,
}
use sentinel_mcp.Bridge.Flight.World.{Task}

-- One for a task that has the lock.
abbrev pub locks : Point → ℕ
locks (fetching rule l) = 1
locks _ = 0

-- One for a request whose wait for the upstream's list would end with an exception.
abbrev pub listing_fails : Outcome (List Tool) → ℕ
listing_fails (raised e) = 1
listing_fails (ok tools) = 0

abbrev pub fails : Task → ℕ
fails t = listing_fails t.request.surroundings.listed

-- The same, as long as the task may still fetch.
abbrev pub may_fail : Request → Point → ℕ
may_fail r ready = listing_fails r.surroundings.listed
may_fail r (listing rule l) = listing_fails r.surroundings.listed
may_fail r (fetching rule l) = listing_fails r.surroundings.listed
may_fail r _ = 0

abbrev pub taken_by : Bool → ℕ
taken_by b = if b then 1 else 0

abbrev pub vacant : Option (List Tool) → ℕ
vacant none = 1
vacant (some tools) = 0

-- What the cache's `get` has cost, with the fetch that is still to come if the cache is empty.
abbrev pub cost : Shared → ℕ
cost sh = sh.gateway.fetches + vacant sh.gateway.tools

-- What a step does to the lock and to the cost, for one that had the lock `had` times and has it `has`
-- times, and that might fail `could` times and still may `can` times; `others` are those beside it that
-- have the lock.
pub record Guarding (had could : ℕ) (sh : Shared) (has can : ℕ) (sh' : Shared) : Type 0 where
  pub lock : (others : ℕ) → taken_by sh.locked ≡ others + had → taken_by sh'.locked ≡ others + has
  pub empty :
      had ≤ taken_by sh.locked
      → taken_by sh.locked ≤ vacant sh.gateway.tools
      → taken_by sh'.locked ≤ vacant sh'.gateway.tools
  pub spent : had ≤ vacant sh.gateway.tools → cost sh' + can ≤ cost sh + could

module _ (rt : Runtime) (config : Config) (r : Request) where
  -- What a step of a task does to them.
  pub record Guards (p : Point) (sh : Shared) (p' : Point) (sh' : Shared) : Type 0 where
    pub guarding : Guarding (locks p) (may_fail r p) sh (locks p') (may_fail r p') sh'

  -- A step that leaves the cache alone.
  quiet-Guards :
      (p p' : Point) (sh sh' : Shared)
      → sh'.locked ≡ sh.locked
      → sh'.gateway.tools ≡ sh.gateway.tools
      → sh'.gateway.fetches ≡ sh.gateway.fetches
      → locks p' ≡ locks p
      → may_fail r p' ≤ may_fail r p
      → Guards p sh p' sh'
  quiet-Guards p p' sh sh' same_lock same_tools same_fetches as_many no_more = record {
    guarding = record {
      lock = λ others h. rw (same_lock, as_many) h;
      empty = λ low h. rw (same_lock, same_tools) h;
      spent = λ h. rw (same_tools, same_fetches) (omega (arith, no_more));
    };
  }

  Begun-locks : {p : Point} → Begun rt config r p → locks p ≡ 0
  Begun-locks (broken e) = refl
  Begun-locks (turned_away outcome result l same) = refl
  Begun-locks (going rule l same resolved) = refl

  Begun-may_fail : {p : Point} → Begun rt config r p → may_fail r p ≤ may_fail r ready
  Begun-may_fail (broken e) = omega arith
  Begun-may_fail (turned_away outcome result l same) = omega arith
  Begun-may_fail (going rule l same resolved) = omega arith

  -- A task with a tool list is past its fetch, and the cache stays as it is.
  record Past (sh : Shared) (p' : Point) (sh' : Shared) : Type 0 where
    pub same_lock : sh'.locked ≡ sh.locked
    pub same_tools : sh'.gateway.tools ≡ sh.gateway.tools
    pub same_fetches : sh'.gateway.fetches ≡ sh.gateway.fetches
    pub no_lock : locks p' ≡ 0
    pub no_fail : may_fail r p' ≡ 0

  Looked-Past :
      {rule : ToolPolicy} {l : Locals} {tools : List Tool} {sh : Shared} {p' : Point} {sh' : Shared}
      → Looked rt config r rule l tools sh p' sh'
      → Past sh p' sh'
  Looked-Past (turned_down outcome result l' same) = record {
    same_lock = refl;
    same_tools = refl;
    same_fetches = refl;
    no_lock = refl;
    no_fail = refl;
  }
  Looked-Past (taken tool l' same found fits sat free) = record {
    same_lock = refl;
    same_tools = refl;
    same_fetches = refl;
    no_lock = refl;
    no_fail = refl;
  }

  after_emit-locks :
      (o : Outcome (Unit {0})) (result : Outcome CallToolResult) (l : Locals)
      → locks (after_emit rt config r o result l) ≡ 0
  after_emit-locks (ok u) result l = refl
  after_emit-locks (raised e) result l = refl

  after_emit-may_fail :
      (o : Outcome (Unit {0})) (result : Outcome CallToolResult) (l : Locals)
      → may_fail r (after_emit rt config r o result l) ≤ 0
  after_emit-may_fail (ok u) result l = omega arith
  after_emit-may_fail (raised e) result l = omega arith

  leave-tools : (b : Bool) (g : Gateway) → (leave rt config r b g).tools ≡ g.tools
  leave-tools true g = refl
  leave-tools false g = refl

  leave-fetches : (b : Bool) (g : Gateway) → (leave rt config r b g).fetches ≡ g.fetches
  leave-fetches true g = refl
  leave-fetches false g = refl

  module _ (out : AuditOutcome) (att : Bool) (cat : Option Category) (l : Locals)
      (sh : Shared) where
    writing-SameButLog :
        (writing rt config r out att cat l sh).1.gateway
        ≡ record sh.gateway { log = (writing rt config r out att cat l sh).1.gateway.log }
    writing-SameButLog =
        emit-SameButLog rt config r.surroundings r.principal r.tool_name r.arguments out att cat
          (record { gateway = sh.gateway; locals = l })

    writing-tools : (writing rt config r out att cat l sh).1.gateway.tools ≡ sh.gateway.tools
    writing-tools = ap (λ (g : Gateway). g.tools) writing-SameButLog

    writing-fetches : (writing rt config r out att cat l sh).1.gateway.fetches ≡ sh.gateway.fetches
    writing-fetches = ap (λ (g : Gateway). g.fetches) writing-SameButLog

  pub Move-Guards :
      {p : Point} {sh : Shared} {p' : Point} {sh' : Shared}
      → Move rt config r p sh p' sh'
      → Guards p sh p' sh'
  Move-Guards (begin sh limiter b) =
      quiet-Guards _ _ _ _ refl refl refl (Begun-locks b) (Begun-may_fail b)
  Move-Guards (give_up rule l sh e) = quiet-Guards _ _ _ _ refl refl refl refl (omega arith)
  Move-Guards (fetch rule l sh free unset) = record {
    guarding = record {
      lock = λ others h. omega (arith, rw free at h);
      empty = λ low h. rw unset (omega arith);
      spent = λ h. omega arith;
    };
  }
  Move-Guards (cached rule l sh tools free full looked) =
      let past = Looked-Past looked in
      quiet-Guards _ _ _ _ past.same_lock past.same_tools past.same_fetches past.no_lock
        (omega (arith, past.no_fail))
  Move-Guards (fetch_failed rule l sh e failed) = record {
    guarding = record {
      lock = λ others h. ground (arith, h);
      empty = λ low h. omega arith;
      spent = λ h. rw failed (omega arith);
    };
  }
  Move-Guards (fetch_done rule l sh tools had looked) =
      let past = Looked-Past looked in
      record {
        guarding = record {
          lock = λ others h. rw (past.same_lock, past.no_lock) (ground (arith, h));
          empty = λ low h. rw past.same_lock (omega arith);
          spent = λ h. rw (past.same_tools, past.same_fetches) (omega (arith, h, past.no_fail));
        };
      }
  Move-Guards (answer l l' sh outcome category result same) =
      quiet-Guards _ _ _ _ refl refl refl refl (omega arith)
  Move-Guards (write b outcome attempted category result l sh) =
      quiet-Guards _ _ _ _ refl (leave-tools b _ ∙ writing-tools outcome attempted category l sh)
        (leave-fetches b _ ∙ writing-fetches outcome attempted category l sh)
        (after_emit-locks (writing rt config r outcome attempted category l sh).0 result _)
        (after_emit-may_fail (writing rt config r outcome attempted category l sh).0 result _)
  Move-Guards (recover e l sh) =
      quiet-Guards _ _ _ _ refl (writing-tools (outcome_of e) false none l sh)
        (writing-fetches (outcome_of e) false none l sh) refl (omega arith)
