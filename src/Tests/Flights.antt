-- ===== src/Tests/Flights.antt =====
-- Two requests of one principal in flight at one gateway.
use sentinel_mcp.Prelude.{
  ℕ, zero, suc, ◌+◌, ◌-◌, ◌*◌, ◌≤◌, ◌≡◌, refl, ap, false, Option, none, some, List, [], ◌∷◌, ◌++◌,
  arith, inl, inr, length, Option-cases,
}
use sentinel_mcp.Bridge.State.{Request}
use sentinel_mcp.Bridge.Flight.{Shared, Point, ready, enter, advance}
use sentinel_mcp.Exec.{ok}
use sentinel_mcp.Bridge.Flight.Inquiry.{Inquiry}
use sentinel_mcp.Bridge.Flight.World.{
  Task, World, moved, arrived, newcomer, asked, arrive, move, ask, Reach, here, next,
}
use sentinel_mcp.Bridge.Flight.Slots.{IsExact, tasks-IsExact}
use sentinel_mcp.Bridge.Flight.Fetches.{IsGuarded, IsFresh}
use sentinel_mcp.Bridge.Flight.Progress.{moves, moves-le}
use sentinel_mcp.Prelude.Dict.{get}
use sentinel_mcp.Limits.Concurrency.{count_of}
use sentinel_mcp.Bridge.CallTool.{attempt}
use sentinel_mcp.Bridge.Flight.Drive.{free, ended, drive}
use sentinel_mcp.Bridge.Flight.Alone.{drive-ready}
use sentinel_mcp.Limits.TokenBucket.Bounds.{last}
use sentinel_mcp.Limits.RateLimiter.Isolation.{attempts_of}
use sentinel_mcp.Identity.Middleware.{Context}
use sentinel_mcp.Bridge.State.{Gateway}
use sentinel_mcp.Bridge.ListTools.{handle_list_tools}
use sentinel_mcp.Bridge.Runs.{attempt_of}
use sentinel_mcp.Bridge.Flight.Accounts.{Account, log-tasks}
use sentinel_mcp.Bridge.Flight.Rates.{entries, forwarded_for, forwarded_for-le}
use sentinel_mcp.Bridge.Flight.Inquiry.{queued}
use sentinel_mcp.Bridge.Flight.Inquiry.Alone.{follow, concluded, follow-queued}
use sentinel_mcp.Bridge.Flight.Settling.{Settled, tasks-Settled}
use sentinel_mcp.Tests.Samples.{runtime, config, policy, surroundings, gateway, three, tools}

abbrev asking : Request
asking = record {
  surroundings = surroundings [];
  principal = "alice";
  tool_name = "read";
  arguments = three;
}

abbrev idle : World
idle = record { shared = record { gateway = gateway; locked = false }; tasks = []; listers = [] }

abbrev inquiring : Inquiry
inquiring = record { principal = "alice"; lock_wait = ok tt; listed = ok [] }

-- A place in a list.
record Place (xs : List Task) : Type 0 where
  pub before : List Task
  pub task : Task
  pub after : List Task
  pub split : xs ≡ before ++ task ∷ after

abbrev place : ℕ → (xs : List Task) → Option (Place xs)
place n [] = none
place zero (x ∷ xs) = some (record { before = []; task = x; after = xs; split = refl })
place (suc n) (x ∷ xs) = elim (place n xs) [
  | none ↦ none
  | some p ↦ some (record {
    before = x ∷ p.before;
    task = p.task;
    after = p.after;
    split = ap (λ ys. x ∷ ys) p.split;
  })
]

abbrev Future : World → Type 0
Future w = (u : World) × Reach runtime config w u

-- The task at a place takes a step, if it can.
abbrev play_at : (w : World) (f : Future w) → Option (Place f.0.tasks) → Future w
play_at w f none = f
play_at w f (some p) =
    elim (Option-cases (advance runtime config p.task.request p.task.point f.0.shared)) [
      | inl stays ↦ f
      | inr ((q, sh), step) ↦ (
        moved f.0 p.before p.task p.after q sh,
        next f.1 (move p.before p.task p.after q sh p.split step),
      )
    ]

-- The tasks take steps in the order of their places.
abbrev play : (w : World) → List ℕ → Future w → Future w
play w [] f = f
play w (n ∷ ns) f = play w ns (play_at w f (place n f.0.tasks))

-- Both requests arrive, and one for the tools; then the steps of the calls alternate up to the upstream.
abbrev flight : Future idle
flight = play idle (0 ∷ 1 ∷ 0 ∷ 1 ∷ 0 ∷ 1 ∷ []) (
  asked (arrived (arrived idle asking) asking) inquiring,
  next (next (next here (arrive asking)) (arrive asking)) (ask inquiring),
)

idle-IsExact : IsExact 2 idle
unfolding count_of get
idle-IsExact = record { ceiling = refl; counted = λ q. refl; below = λ q. omega arith }

idle-IsFresh : IsFresh idle
idle-IsFresh = record {
  no_tasks = refl;
  no_listers = refl;
  unlocked = refl;
  no_tools = refl;
  no_fetches = refl;
}

tasks-IsExact_example : IsExact 2 flight.0
tasks-IsExact_example = tasks-IsExact runtime config 2 idle-IsExact flight.1

moves-le_example :
    moves runtime config flight.1 ≤ 6 * length flight.0.tasks + 2 * length flight.0.listers
moves-le_example = moves-le runtime config refl refl flight.1

-- Both requests have arrived, and the first one has taken its first step.
abbrev entered : Point × Shared
entered = enter runtime config asking idle.shared

abbrev early : World
early =
    moved (arrived (arrived idle asking) asking) [] (newcomer asking) (newcomer asking ∷ [])
      entered.0 entered.1

early-Reach : Reach runtime config idle early
unfolding advance
early-Reach =
    next (next (next here (arrive asking)) (arrive asking))
      (move [] (newcomer asking) (newcomer asking ∷ []) entered.0 entered.1 refl refl)

log-tasks_example : Account runtime config [] early.tasks early.shared.gateway.log
log-tasks_example = log-tasks runtime config idle refl early-Reach (refl, (refl, tt))

early-own : attempts_of "alice" (entries runtime config early-Reach) ≡ attempt_of asking ∷ []
unfolding attempts_of entries early-Reach
early-own = refl

unknown : get "alice" gateway.rate_limiter.buckets ≡ none
unfolding get
unknown = refl

forwarded_for-le_example :
    forwarded_for runtime config "alice" early-Reach * 1 ≤ 2 + (last 100 [] - 100) * 1
forwarded_for-le_example =
    forwarded_for-le runtime config 2 1 idle early "alice" (attempt_of asking) [] early-Reach refl
      refl refl unknown early-own tt

abbrev lists_context : Context Gateway
lists_context = record { principal_var = some "alice"; world = gateway }

follow-queued_example :
    follow policy
      (record { principal = "alice"; lock_wait = ok tt; listed = ok tools })
      2
      (queued, record { gateway = gateway; locked = false })
    ≡ concluded (handle_list_tools policy (ok tt) (ok tools) lists_context)
follow-queued_example = follow-queued policy "alice" (ok tt) (ok tools) lists_context refl

abbrev busy : World
busy = asked (arrived idle asking) inquiring

busy-IsGuarded : IsGuarded 1 busy
busy-IsGuarded = record { exclusive = refl; empty = omega arith; affordable = omega arith }

tasks-Settled_example : Settled runtime config busy 1 1
tasks-Settled_example = tasks-Settled runtime config 1 busy busy-IsGuarded

drive-ready_example :
    drive runtime config asking 6 (ready, free gateway)
    ≡ ended (attempt runtime config (surroundings []) "alice" "read" three gateway)
drive-ready_example = drive-ready runtime config asking gateway
