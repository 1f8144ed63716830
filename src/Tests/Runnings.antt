-- ===== src/Tests/Runnings.antt =====
-- Requests at a process that has started.
use sentinel_mcp.Prelude.{◌+◌, ◌-◌, ◌*◌, ◌≤◌, ◌≡◌, refl, String, none, some, List, [], ◌∷◌, All}
use sentinel_mcp.Prelude.Int.{pos}
use sentinel_mcp.Prelude.Dict.{get, put}
use sentinel_mcp.Exec.{ok}
use sentinel_mcp.Policy.Loading.File.{loaded, load_policy}
use sentinel_mcp.Policy.Loading.File.Failing.{load_policy_iff}
use sentinel_mcp.Policy.Loading.RoundTrip.{write_config}
use sentinel_mcp.Limits.Concurrency
use sentinel_mcp.Limits.Concurrency.{ConcurrencyLimiter}
use sentinel_mcp.Limits.RateLimiter.Isolation.{attempts_of}
use sentinel_mcp.Limits.TokenBucket.Bounds.{last}
use sentinel_mcp.Audit.Redaction.{redacted}
use sentinel_mcp.Identity.Resolver.{configured, configure, key_of}
use sentinel_mcp.Bridge.State.{Config}
use sentinel_mcp.Bridge.Runs.{attempt_of}
use sentinel_mcp.Bridge.Flight.{Shared, Point, enter, advance}
use sentinel_mcp.Bridge.Flight.World.{
  World, arrived, newcomer, moved, arrive, move, Reach, here, next,
}
use sentinel_mcp.Bridge.Flight.Rates.{entries, forwarded_for}
use sentinel_mcp.Bridge.Flight.Traffic.{posted}
use sentinel_mcp.Bridge.Flight.Traffic.Admission.{IsEntitled}
use sentinel_mcp.Server.{App, token_of, principal_key_env}
use sentinel_mcp.Server.CommandLine.{Settings, parse_args}
use sentinel_mcp.Server.CommandLine.Starting.{Starts, app_of}
use sentinel_mcp.Server.CommandLine.Serving.{at_first, started_config, started_keys}
use sentinel_mcp.Server.CommandLine.Running.{
  HandlesAs, started-digests, started-IsEntitled, started-rates,
}
use sentinel_mcp.Tests.Samples.{runtime, policy}
use sentinel_mcp.Tests.Identities.{digest, environ, digests}
use sentinel_mcp.Tests.Traffics.{Future, both_posted}
use sentinel_mcp.Tests.Starts.{scale, numerals, loader, command_line, valid, asking}

abbrev args : Settings
args = record {
  upstream_url = "http://127.0.0.1:8765/mcp";
  policy = "policy.yaml";
  host = "127.0.0.1";
  port = pos 8080;
  rate_limit_capacity = pos 20000;
  rate_limit_refill_per_second = pos 5;
  max_concurrent_per_principal = pos 10;
  upstream_call_timeout_seconds = none;
  audit_log_path = "sentinelmcp-audit.jsonl";
  audit_redaction_mode = redacted;
}

args-parsed : parse_args scale numerals command_line ≡ some args
unfolding parse_args
args-parsed = refl

policy-loaded : load_policy loader "policy.yaml" ≡ loaded policy
policy-loaded =
    ((load_policy_iff loader "policy.yaml").0 policy).1 (write_config policy, refl, valid)

abbrev ceiling : ConcurrencyLimiter
ceiling = record { max_concurrent = 10; active = []; peak = [] }

abbrev app : App
app = app_of runtime scale numerals loader digest environ args policy ceiling digests

ceiling-created : Concurrency.create (pos 10) ≡ ok ceiling
unfolding Concurrency.create
ceiling-created = refl

keys-configured : configure digest environ (principal_key_env policy) ≡ configured digests
unfolding configure key_of get put
keys-configured = refl

abbrev start : Starts runtime scale numerals loader digest environ command_line app
start = record {
  args = args;
  parsed = args-parsed;
  policy = policy;
  loads = policy-loaded;
  limiter = ceiling;
  limits = ceiling-created;
  digests = digests;
  resolves = keys-configured;
  serves = refl;
}

abbrev settings : Config
settings = started_config runtime scale numerals loader digest environ command_line app start

abbrev keys : List (String × String)
keys = started_keys runtime scale numerals loader digest environ command_line app start

abbrev started_world : World
started_world = at_first runtime scale numerals loader digest environ command_line app

abbrev future : Future settings digests started_world
future = both_posted settings digests started_world

started-IsEntitled_example :
    HandlesAs runtime scale numerals loader digest environ command_line app settings
    × All
        (IsEntitled runtime settings digest environ keys digests
          (started-digests runtime scale numerals loader digest environ command_line app start)
          (posted runtime settings digest digests future.1))
        future.0.shared.gateway.forwarded
started-IsEntitled_example =
    started-IsEntitled runtime scale numerals loader digest environ command_line app start future.0
      future.1

-- A request has arrived and has taken its first step.
abbrev entered : Point × Shared
entered = enter runtime settings asking started_world.shared

abbrev begun : World
begun = moved (arrived started_world asking) [] (newcomer asking) [] entered.0 entered.1

begun-Reach : Reach runtime settings started_world begun
unfolding advance
begun-Reach =
    next (next here (arrive asking)) (move [] (newcomer asking) [] entered.0 entered.1 refl refl)

begun-own : attempts_of "alice" (entries runtime settings begun-Reach) ≡ attempt_of asking ∷ []
unfolding attempts_of entries begun-Reach
begun-own = refl

started-rates_example :
    forwarded_for runtime settings "alice" begun-Reach * token_of scale
    ≤ 20000 + (last 100 [] - 100) * 5
started-rates_example =
    started-rates runtime scale numerals loader digest environ command_line app start 20000 5 begun
      "alice" (attempt_of asking) [] begun-Reach refl refl begun-own tt
