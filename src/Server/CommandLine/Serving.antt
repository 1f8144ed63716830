-- ===== src/Server/CommandLine/Serving.antt =====
-- What the application that `main` of sentinelmcp/gateway/server.py serves does with the requests. The
-- protocol layer between the middleware and the handlers is left out.
use sentinel_mcp.Prelude.{
  ℕ, zero, suc, ◌≤◌, ◌≡◌, refl, ap, sym, ◌⊎◌, ◌+◌, false, arith, Option, List, [], ◌∷◌, ◌++◌,
  String,
}
use sentinel_mcp.Prelude.Int.{ℤ, pos, negsuc, ◌≤ℤ◌}
use sentinel_mcp.Prelude.Dict.{Dict, get}
use sentinel_mcp.Json.{Fields}
use sentinel_mcp.Exec.{Outcome, ok, raised}
use sentinel_mcp.Policy.Loading.File.{Loader}
use sentinel_mcp.Limits.Concurrency
use sentinel_mcp.Limits.Concurrency.{ConcurrencyLimiter, active_count, count_of}
use sentinel_mcp.Identity.Middleware.{Scope, Context}
use sentinel_mcp.Identity.Middleware.Authentication.{Authentic}
use sentinel_mcp.Bridge.State.{Gateway, Runtime, Config, Surroundings}
use sentinel_mcp.Bridge.CallTool.{or_end}
use sentinel_mcp.Bridge.CallTool.Forwarding.{Forwardable}
use sentinel_mcp.Bridge.Authenticated.{forwarded-served}
use sentinel_mcp.Bridge.Flight.World.{World, Reach}
use sentinel_mcp.Bridge.Flight.Slots.{IsExact, calls, calls-le}
use sentinel_mcp.Bridge.Flight.Fetches.{
  list_lockers, failing_lists, IsFresh, lockers, failing, fetches-le,
}
use sentinel_mcp.Server.{Scale, App, principal_key_env, config_of, build_gateway_server, serve_call}
use sentinel_mcp.Server.CommandLine.{CommandLine, Numerals, running, main}
use sentinel_mcp.Server.CommandLine.Starting.{Starts, main-Starts}

module _ (rt : Runtime) (sc : Scale) (num : Numerals) (ld : Loader) (digest : String → String)
    (environ : Dict String) (cl : CommandLine) (app : App) where
  module _ (start : Starts rt sc num ld digest environ cl app) where
    -- What the call handler was made with.
    abbrev pub started_config : Config
    started_config =
        config_of rt sc start.policy
          (record {
            path = start.args.audit_log_path;
            redaction_mode = start.args.audit_redaction_mode;
          })
          start.args.upstream_call_timeout_seconds

    abbrev pub started_keys : List (String × String)
    started_keys = principal_key_env start.policy

  module _ (s : Surroundings) (name : String) (arguments : Option Fields) (scope : Scope)
      (context : Context Gateway) where
    abbrev upstream_after : App → List (String × Fields)
    upstream_after served =
        (serve_call rt sc digest environ served s name arguments scope context).1.world.forwarded

    -- The upstream gets the call, or it gets nothing.
    abbrev pub ForwardsAsPermitted : Starts rt sc num ld digest environ cl app → App → Type 0
    ForwardsAsPermitted start served =
        ((p : String) × Authentic rt.lower_other digest environ (started_keys start) scope p
          × Forwardable rt (started_config start) s p name (or_end arguments) context.world
          × (upstream_after served ≡ context.world.forwarded ++ (name, or_end arguments) ∷ []))
        ⊎ (((p : String)
              → Authentic rt.lower_other digest environ (started_keys start) scope p
              → ¬ Forwardable rt (started_config start) s p name (or_end arguments) context.world)
            × (upstream_after served ≡ context.world.forwarded))

    forwards_started :
        (start : Starts rt sc num ld digest environ cl app)
        → scope.kind ≡ "http"
        → ForwardsAsPermitted start app
    unfolding build_gateway_server
    forwards_started start http = rw start.serves (
        forwarded-served digest environ (started_keys start) start.digests start.resolves rt
          (started_config start) s name arguments scope context http)

    -- Once the process serves: the upstream gets a call of an HTTP request exactly when the request
    -- presents the key that the environment holds for some principal of the loaded policy file, and every
    -- check of the pipeline passes for that principal, with that policy and the settings of the command
    -- line: a token is granted, the policy has an allow rule, the tool list has the tool, its schema accepts
    -- the arguments, they satisfy the rule, a slot is free, and no timeout of zero stops the call before it
    -- starts; then once, unchanged. Otherwise the upstream gets nothing.
    pub main-forwarded :
        (host : String) (port : ℤ)
        → main rt sc num ld digest environ cl ≡ running app host port
        → scope.kind ≡ "http"
        → (start : Starts rt sc num ld digest environ cl app) × ForwardsAsPermitted start app
    main-forwarded host port runs http =
        let start = main-Starts rt sc num ld digest environ cl app host port runs in
        (start, forwards_started start http)

  -- The gateway before its first request.
  abbrev pub at_first : World
  at_first = record {
    shared = record { gateway = app.server.objects; locked = false };
    tasks = [];
    listers = [];
  }

  limiter_in : ConcurrencyLimiter → Outcome ConcurrencyLimiter → ConcurrencyLimiter
  limiter_in other (ok limiter) = limiter
  limiter_in other (raised e) = other

  create-new :
      (n : ℤ) (limiter : ConcurrencyLimiter)
      → Concurrency.create n ≡ ok limiter
      → (n ≡ pos limiter.max_concurrent) × ((q : String) → active_count limiter q ≡ 0)
  unfolding Concurrency.create count_of get limiter_in
  create-new (negsuc n) limiter h = ground arith
  create-new (pos zero) limiter h = ground arith
  create-new (pos (suc m)) limiter h =
      let same = ap (limiter_in limiter) h in
      (
        ap (λ (c : ConcurrencyLimiter). pos c.max_concurrent) same,
        λ q. ap (λ (c : ConcurrencyLimiter). active_count c q) (sym same),
      )

  calls_within :
      (q : String) (u : World) (config : Config) (n : ℕ)
      → IsExact n at_first
      → Reach rt config at_first u
      → pos (calls q u.tasks) ≤ℤ pos n
  calls_within q u config n exact reached =
      ground (arith, calls-le rt config n at_first u q exact reached)

  module _ (start : Starts rt sc num ld digest environ cl app) where
    at_first-IsExact : IsExact start.limiter.max_concurrent at_first
    unfolding build_gateway_server
    at_first-IsExact =
        let new = create-new start.args.max_concurrent_per_principal start.limiter start.limits in
        rw start.serves
          (record { ceiling = refl; counted = new.1; below = λ q. omega (arith, new.1 q) })

    at_first-IsFresh : IsFresh at_first
    unfolding build_gateway_server
    at_first-IsFresh = rw start.serves (record {
      no_tasks = refl;
      no_listers = refl;
      unlocked = refl;
      no_tools = refl;
      no_fetches = refl;
    })

  -- After a start of the process, whatever `tools/call` and `tools/list` requests arrive and however
  -- their steps interleave: at any time the upstream has at most `--max-concurrent-per-principal` calls
  -- of one principal, at most one request asks it for its tools, and it was asked for them at most once
  -- more than there are requests whose own fetch would fail.
  pub started-limits :
      (start : Starts rt sc num ld digest environ cl app) (u : World) (q : String)
      → Reach rt (started_config start) at_first u
      → (pos (calls q u.tasks) ≤ℤ start.args.max_concurrent_per_principal)
        × (lockers u.tasks + list_lockers u.listers ≤ 1)
        × (u.shared.gateway.fetches ≤ 1 + failing u.tasks + failing_lists u.listers)
  started-limits start u q reached =
      let once = fetches-le rt (started_config start) at_first u (at_first-IsFresh start) reached in
      (
        rw (create-new start.args.max_concurrent_per_principal start.limiter start.limits).0 (
            calls_within q u (started_config start) start.limiter.max_concurrent
              (at_first-IsExact start) reached),
        once.0,
        once.1,
      )
