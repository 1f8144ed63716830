-- ===== src/Server/CommandLine.antt =====
-- `main` of sentinelmcp/gateway/server.py. `argparse` splits the command line; what it gives for each
-- option is a text or nothing, and the conversions of numbers are parameters. `uvicorn.run`, which serves
-- until the process ends, is the last step.
pub mod Starting
pub mod Serving
pub mod Running
use sentinel_mcp.Prelude.{ℕ, Option, none, some, String, str_eq, if◌then◌else◌}
use sentinel_mcp.Prelude.Int.{ℤ, pos}
use sentinel_mcp.Prelude.Dict.{Dict}
use sentinel_mcp.Exec.{Exn, Outcome, ok, raised}
use sentinel_mcp.Policy.Models.{PolicyConfig}
use sentinel_mcp.Policy.Engine.{◌>>=◌}
use sentinel_mcp.Policy.Loading.File.{
  Loading, loaded, policy_load_error, escaped, Loader, load_policy,
}
use sentinel_mcp.Limits.RateLimiter
use sentinel_mcp.Limits.Concurrency
use sentinel_mcp.Limits.Concurrency.{ConcurrencyLimiter}
use sentinel_mcp.Audit.Redaction.{RedactionMode, keys_only, redacted, full}
use sentinel_mcp.Audit.Redaction
use sentinel_mcp.Identity.Resolver.{IdentityConfigError}
use sentinel_mcp.Bridge.State.{Runtime}
use sentinel_mcp.Server.{
  Scale, default_capacity, default_refill, default_max_concurrent, App, Built, built,
  identity_config_error, value_error, build_gateway_app,
}

-- The text of each option, if it is given.
pub record CommandLine : Type 0 where
  pub upstream_url : Option String
  pub policy : Option String
  pub host : Option String
  pub port : Option String
  pub rate_limit_capacity : Option String
  pub rate_limit_refill_per_second : Option String
  pub max_concurrent_per_principal : Option String
  pub upstream_call_timeout_seconds : Option String
  pub audit_log_path : Option String
  pub audit_redaction_mode : Option String

-- The namespace that `parse_args` gives.
pub record Settings : Type 0 where
  pub upstream_url : String
  pub policy : String
  pub host : String
  pub port : ℤ
  pub rate_limit_capacity : ℤ
  pub rate_limit_refill_per_second : ℤ
  pub max_concurrent_per_principal : ℤ
  pub upstream_call_timeout_seconds : Option ℕ
  pub audit_log_path : String
  pub audit_redaction_mode : RedactionMode

-- `int`, and `float` for tokens, for tokens a second and for seconds, in the units of the scale.
pub record Numerals : Type 0 where
  pub to_int : String → Option ℤ
  pub to_tokens : String → Option ℤ
  pub to_rate : String → Option ℤ
  pub to_seconds : String → Option ℕ

-- An option with a default.
abbrev pub optional : {A : Type 0} → A → (String → Option A) → Option String → Option A
optional d convert none = some d
optional d convert (some s) = convert s

-- choices=["none", "keys_only", "redacted", "full"]
abbrev pub to_mode : String → Option RedactionMode
to_mode s =
    if str_eq s "none"
    then some Redaction.none
    else if str_eq s "keys_only"
    then some keys_only
    else if str_eq s "redacted"
    then some redacted
    else if str_eq s "full"
    then some full
    else none

unfoldable pub parse_args : Scale → Numerals → CommandLine → Option Settings
parse_args sc num cl = do
  upstream_url ← cl.upstream_url
  policy ← cl.policy
  host ← optional "127.0.0.1" some cl.host
  port ← optional (pos 8080) num.to_int cl.port
  rate_limit_capacity ← optional (default_capacity sc) num.to_tokens cl.rate_limit_capacity
  rate_limit_refill_per_second ←
      optional (default_refill sc) num.to_rate cl.rate_limit_refill_per_second
  max_concurrent_per_principal ←
      optional default_max_concurrent num.to_int cl.max_concurrent_per_principal
  upstream_call_timeout_seconds ←
      optional none (λ s. num.to_seconds s >>= λ t. some (some t)) cl.upstream_call_timeout_seconds
  audit_log_path ← optional "sentinelmcp-audit.jsonl" some cl.audit_log_path
  audit_redaction_mode ← optional redacted to_mode cl.audit_redaction_mode
  some (record {
    upstream_url = upstream_url;
    policy = policy;
    host = host;
    port = port;
    rate_limit_capacity = rate_limit_capacity;
    rate_limit_refill_per_second = rate_limit_refill_per_second;
    max_concurrent_per_principal = max_concurrent_per_principal;
    upstream_call_timeout_seconds = upstream_call_timeout_seconds;
    audit_log_path = audit_log_path;
    audit_redaction_mode = audit_redaction_mode;
  })

-- How `main` comes out: the application is served, or the command line or the configuration is refused.
pub data Exit : Type 0 where
  running : App → (host : String) → (port : ℤ) → Exit
  usage_error : Exit
  policy_refused : String → Exit
  identity_refused : IdentityConfigError → Exit
  failed_with : Exn → Exit

module _ (rt : Runtime) (sc : Scale) (num : Numerals) (ld : Loader) (digest : String → String)
    (environ : Dict String) where
  serve : Settings → Built → Exit
  serve args (built app) = running app args.host args.port
  serve args (identity_config_error e) = identity_refused e
  serve args (value_error e) = failed_with e

  with_ceiling : Settings → PolicyConfig → Outcome ConcurrencyLimiter → Exit
  unfolding serve
  with_ceiling args policy (raised e) = failed_with e
  with_ceiling args policy (ok limiter) = serve args (
      build_gateway_app rt sc digest environ args.upstream_url policy args.host
        (some (RateLimiter.create args.rate_limit_capacity args.rate_limit_refill_per_second))
        (some limiter)
        (some (record { path = args.audit_log_path; redaction_mode = args.audit_redaction_mode }))
        "sentinelmcp-audit.jsonl" redacted args.upstream_call_timeout_seconds)

  with_policy : Settings → Loading → Exit
  unfolding with_ceiling
  with_policy args (loaded policy) =
      with_ceiling args policy (Concurrency.create args.max_concurrent_per_principal)
  with_policy args (policy_load_error reason) = policy_refused reason
  with_policy args (escaped e) = failed_with e

  with_settings : Option Settings → Exit
  unfolding with_policy
  with_settings none = usage_error
  with_settings (some args) = with_policy args (load_policy ld args.policy)

  unfoldable pub main : CommandLine → Exit
  unfolding with_settings
  main cl = with_settings (parse_args sc num cl)
