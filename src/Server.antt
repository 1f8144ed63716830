-- ===== src/Server.antt =====
-- sentinelmcp/gateway/server.py: how the parts are put together, and the start of the process. The SDK's
-- server, its transport and the upstream's connection are left out: a server is its two handlers with
-- the objects that they share.
pub mod CommandLine
use sentinel_mcp.Prelude.{ℕ, ◌*◌, Option, none, some, List, [], String, map}
use sentinel_mcp.Prelude.Int.{ℤ, pos}
use sentinel_mcp.Prelude.Dict.{Dict}
use sentinel_mcp.Json.{Fields}
use sentinel_mcp.Exec.{Exn, Outcome, ok, raised, Exec}
use sentinel_mcp.Policy.Models.{PolicyConfig}
use sentinel_mcp.Limits.RateLimiter
use sentinel_mcp.Limits.RateLimiter.{RateLimiter}
use sentinel_mcp.Limits.Concurrency
use sentinel_mcp.Limits.Concurrency.{ConcurrencyLimiter}
use sentinel_mcp.Audit.Redaction
use sentinel_mcp.Audit.Redaction.{RedactionMode}
use sentinel_mcp.Identity.Resolver.{IdentityConfigError, Configured, configured, refused, configure}
use sentinel_mcp.Identity.Middleware.{Scope, Context, Response, call}
use sentinel_mcp.Bridge.Results.{CallToolResult}
use sentinel_mcp.Bridge.State.{Tool, Gateway, Runtime, Config, Surroundings}
use sentinel_mcp.Bridge.ListTools.{handle_list_tools}
use sentinel_mcp.Bridge.CallTool.{handle_call_tool}

-- The units of time in a second, and the units of a token that a rate of one token a second gives in
-- one unit of time.
pub record Scale : Type 0 where
  pub ticks : ℕ
  pub grain : ℕ

abbrev pub token_of : Scale → ℕ
token_of sc = sc.ticks * sc.grain

-- DEFAULT_RATE_LIMIT_CAPACITY and DEFAULT_RATE_LIMIT_REFILL_PER_SECOND
abbrev pub default_capacity : Scale → ℤ
default_capacity sc = pos (20 * token_of sc)

abbrev pub default_refill : Scale → ℤ
default_refill sc = pos (5 * sc.grain)

abbrev pub default_max_concurrent : ℤ
default_max_concurrent = pos 10

pub record AuditLogger : Type 0 where
  pub path : String
  pub redaction_mode : RedactionMode

-- The server: its upstream, its handlers, and the objects that they share as they are at first.
pub record Server : Type 0 where
  pub upstream_url : String
  pub on_list_tools :
      (lock_wait : Outcome (Unit {0}))
      → (listed : Outcome (List Tool)) → Exec (Context Gateway) (List Tool)
  pub on_call_tool :
      Surroundings
      → (name : String) → (arguments : Option Fields) → Exec (Context Gateway) CallToolResult
  pub objects : Gateway

-- The middleware around the server.
pub record App : Type 0 where
  pub digests : Dict String
  pub server : Server
  pub host : String

pub data Built : Type 0 where
  built : App → Built
  identity_config_error : IdentityConfigError → Built
  value_error : Exn → Built

-- {name: p.api_key_env for name, p in policy.principals.items()}
abbrev pub principal_key_env : PolicyConfig → List (String × String)
principal_key_env policy = map (λ (name, p). (name, p.api_key_env)) policy.principals

module _ (rt : Runtime) (sc : Scale) where
  abbrev pub config_of : PolicyConfig → AuditLogger → Option ℕ → Config
  config_of policy audit_logger timeout = record {
    policy = policy;
    upstream_call_timeout = timeout;
    redaction_mode = audit_logger.redaction_mode;
    token = token_of sc;
  }

  -- The limiters, and one empty tool cache for both handlers.
  abbrev pub objects_of : RateLimiter → ConcurrencyLimiter → Gateway
  objects_of rate_limiter concurrency_limiter = record {
    rate_limiter = rate_limiter;
    concurrency_limiter = concurrency_limiter;
    tools = none;
    log = [];
    fetches = 0;
    forwarded = [];
  }

  unfoldable pub build_gateway_server :
      (upstream_url : String)
      → PolicyConfig
      → RateLimiter
      → ConcurrencyLimiter
      → AuditLogger
      → Option ℕ
      → Server
  build_gateway_server upstream_url policy rate_limiter concurrency_limiter audit_logger timeout =
      record {
        upstream_url = upstream_url;
        on_list_tools = handle_list_tools policy;
        on_call_tool = handle_call_tool rt (config_of policy audit_logger timeout);
        objects = objects_of rate_limiter concurrency_limiter;
      }

  abbrev given_or : {A : Type 0} → A → Option A → A
  given_or d none = d
  given_or d (some a) = a

  -- The default limiter is created only if none is given.
  abbrev limiter_or_default : Option ConcurrencyLimiter → Outcome ConcurrencyLimiter
  limiter_or_default none = Concurrency.create default_max_concurrent
  limiter_or_default (some limiter) = ok limiter

  -- Once the resolver is there.
  with_limiter :
      (upstream_url : String)
      → PolicyConfig
      → (host : String) → RateLimiter
      → AuditLogger
      → Option ℕ
      → Dict String
      → Outcome ConcurrencyLimiter
      → Built
  unfolding build_gateway_server
  with_limiter upstream_url policy host rate_limiter audit_logger timeout digests (raised e) =
      value_error e
  with_limiter upstream_url policy host rate_limiter audit_logger timeout digests (ok limiter) =
      built (record {
        digests = digests;
        server = build_gateway_server upstream_url policy rate_limiter limiter audit_logger timeout;
        host = host;
      })

  with_resolver :
      (upstream_url : String)
      → PolicyConfig
      → (host : String) → RateLimiter
      → AuditLogger
      → Option ℕ
      → Outcome ConcurrencyLimiter
      → Configured
      → Built
  unfolding with_limiter
  with_resolver upstream_url policy host rate_limiter audit_logger timeout limiter (refused e) =
      identity_config_error e
  with_resolver upstream_url policy host rate_limiter audit_logger timeout limiter (configured ds) =
      with_limiter upstream_url policy host rate_limiter audit_logger timeout ds limiter

  module _ (digest : String → String) (environ : Dict String) where
    pub build_gateway_app :
        (upstream_url : String)
        → PolicyConfig
        → (host : String) → Option RateLimiter
        → Option ConcurrencyLimiter
        → Option AuditLogger
        → (audit_log_path : String) → (audit_redaction_mode : RedactionMode) → Option ℕ
        → Built
    unfolding with_resolver
    build_gateway_app url policy host rate_limiter concurrency_limiter audit_logger path mode
          timeout =
        with_resolver url policy host
          (given_or (RateLimiter.create (default_capacity sc) (default_refill sc)) rate_limiter)
          (given_or (record { path = path; redaction_mode = mode }) audit_logger) timeout
          (limiter_or_default concurrency_limiter)
          (configure digest environ (principal_key_env policy))

    -- `tools/call` as it comes in from outside.
    abbrev pub serve_call :
        App
        → Surroundings
        → (name : String) → (arguments : Option Fields) → Scope
        → Exec (Context Gateway) (Response CallToolResult)
    serve_call app s name arguments =
        call rt.lower_other digest app.digests (λ scope. app.server.on_call_tool s name arguments)
