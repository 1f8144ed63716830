-- ===== src/Server/CommandLine/Running.antt =====
-- What holds of every application that `main` of sentinelmcp/gateway/server.py serves while requests are
-- in flight. The protocol layer between the middleware and the handlers is left out.
use sentinel_mcp.Prelude.{
  ℕ, ◌≤◌, ◌≡◌, refl, ap, sym, ◌+◌, ◌-◌, ◌*◌, ◌∙◌, All, none, some, List, [], ◌∷◌, String,
}
use sentinel_mcp.Prelude.Int.{pos}
use sentinel_mcp.Prelude.Dict.{Dict, get}
use sentinel_mcp.Policy.Loading.File.{Loader}
use sentinel_mcp.Bridge.State.{Gateway, Runtime, Config}
use sentinel_mcp.Limits.RateLimiter
use sentinel_mcp.Limits.RateLimiter.{RateLimiter}
use sentinel_mcp.Limits.RateLimiter.Isolation.{Attempt, attempts_of}
use sentinel_mcp.Limits.RateLimiter.Grants.{times_of}
use sentinel_mcp.Limits.TokenBucket.{TokenBucket}
use sentinel_mcp.Limits.TokenBucket.Bounds.{IsMonotone, last}
use sentinel_mcp.Identity.Resolver.{configured, configure}
use sentinel_mcp.Identity.Middleware.{current_principal}
use sentinel_mcp.Bridge.CallTool.{handle_call_tool}
use sentinel_mcp.Bridge.Flight.{ready, done}
use sentinel_mcp.Bridge.Flight.Drive.{drive, free}
use sentinel_mcp.Bridge.Flight.Alone.{drive-ready}
use sentinel_mcp.Bridge.Flight.Traffic.{Post, request_of, Traffic, posted}
use sentinel_mcp.Bridge.Flight.Traffic.Admission.{IsEntitled, forwarded-IsEntitled}
use sentinel_mcp.Bridge.Flight.Rates.{entries, forwarded_for, forwarded_for-le}
use sentinel_mcp.Bridge.Flight.World.{World, Reach}
use sentinel_mcp.Server.{Scale, token_of, App, build_gateway_server}
use sentinel_mcp.Server.CommandLine.{CommandLine, Numerals}
use sentinel_mcp.Server.CommandLine.Starting.{Starts}
use sentinel_mcp.Server.CommandLine.Serving.{started_config, started_keys, at_first}

module _ (rt : Runtime) (sc : Scale) (num : Numerals) (ld : Loader) (digest : String → String)
    (environ : Dict String) (cl : CommandLine) (app : App) where
  abbrev first : World
  first = at_first rt sc num ld digest environ cl app

  abbrev no_bucket : Dict TokenBucket
  no_bucket = []

  no_buckets : (q : String) → get q no_bucket ≡ none
  unfolding get
  no_buckets q = refl

  module _ (start : Starts rt sc num ld digest environ cl app) where
    abbrev config : Config
    config = started_config rt sc num ld digest environ cl app start

    abbrev keys : List (String × String)
    keys = started_keys rt sc num ld digest environ cl app start

    first-no_calls : first.shared.gateway.forwarded ≡ []
    unfolding build_gateway_server
    first-no_calls = rw start.serves refl

    first-limiter :
        first.shared.gateway.rate_limiter
        ≡ RateLimiter.create start.args.rate_limit_capacity start.args.rate_limit_refill_per_second
    unfolding build_gateway_server
    first-limiter = rw start.serves refl

  -- The steps that the tasks of the requests take are the application's own: with what the client posts,
  -- its call handler, for a request that comes in alone for a principal, ends as the request's task does,
  -- with the same answer and the same gateway.
  abbrev pub HandlesAs : Config → Type 0
  HandlesAs config =
      (p : Post) (q : String) (g : Gateway)
      → drive rt config (request_of p q) 6 (ready, free g) ≡ (
        done
            (app.server.on_call_tool p.surroundings p.tool_name p.arguments
              (record { principal_var = some q; world = g })).0,
        free
            (app.server.on_call_tool p.surroundings p.tool_name p.arguments
              (record { principal_var = some q; world = g })).1.world,
      )

  started-HandlesAs : (start : Starts rt sc num ld digest environ cl app) → HandlesAs (config start)
  unfolding build_gateway_server handle_call_tool current_principal
  started-HandlesAs start p q g = rw start.serves (drive-ready rt (config start) (request_of p q) g)

  pub started-digests :
      (start : Starts rt sc num ld digest environ cl app)
      → configure digest environ (keys start) ≡ configured app.digests
  started-digests start = start.resolves ∙ ap (λ (a : App). configured a.digests) (sym start.serves)

  -- After a start of the process: the application handles a request that is alone as the request's task
  -- does. And however many HTTP requests come in and however their handling interleaves, every call that
  -- the upstream got is, unchanged, that of a request that was posted and that presented the key which
  -- the environment holds for a principal of the loaded policy file, and that policy has an allow rule for
  -- it that the arguments satisfy.
  pub started-IsEntitled :
      (start : Starts rt sc num ld digest environ cl app) (u : World)
      (traffic : Traffic rt (config start) digest app.digests first u)
      → HandlesAs (config start)
        × All
            (IsEntitled rt
              (config start)
              digest
              environ
              (keys start)
              app.digests
              (started-digests start)
              (posted rt (config start) digest app.digests traffic))
            u.shared.gateway.forwarded
  started-IsEntitled start u traffic = (
    started-HandlesAs start,
    forwarded-IsEntitled rt (config start) digest environ (keys start) app.digests
        (started-digests start) first u refl (first-no_calls start) traffic,
  )

  -- After a start of the process with a capacity and a refill rate that are not negative, however the
  -- requests arrive and their steps interleave, if the clock's readings do not go back: the calls that
  -- are forwarded for a principal, counted in tokens, are at most the capacity and what flows in from
  -- its first attempt to its last.
  pub started-rates :
      (start : Starts rt sc num ld digest environ cl app) (c r : ℕ) (u : World) (q : String)
      (a : Attempt) (rest : List Attempt) (reached : Reach rt (config start) first u)
      → start.args.rate_limit_capacity ≡ pos c
      → start.args.rate_limit_refill_per_second ≡ pos r
      → attempts_of q (entries rt (config start) reached) ≡ a ∷ rest
      → IsMonotone a.now (times_of rest)
      → forwarded_for rt (config start) q reached * token_of sc
        ≤ c + (last a.now (times_of rest) - a.now) * r
  started-rates start c r u q a rest reached capacity rate own h =
      let limiter = first-limiter start in
      forwarded_for-le rt (config start) c r first u q a rest reached refl
        (ap (λ (x : RateLimiter). x.capacity) limiter ∙ capacity)
        (ap (λ (x : RateLimiter). x.refill_rate) limiter ∙ rate)
        (ap (λ (x : RateLimiter). get q x.buckets) limiter ∙ no_buckets q) own h
