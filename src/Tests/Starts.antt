-- ===== src/Tests/Starts.antt =====
-- A policy file with one principal, and a start of the process with it.
use sentinel_mcp.Prelude.{◌+◌, ◌≤◌, ◌≡◌, ◌↔◌, refl, Bool, Option, none, some, [], String, arith}
use sentinel_mcp.Prelude.Int.{ℤ, pos, ◌≤ℤ◌}
use sentinel_mcp.Prelude.Dict.{get}
use sentinel_mcp.Float.{Float}
use sentinel_mcp.Json.{Json, bool, int, float, str}
use sentinel_mcp.Exec.{ok}
use sentinel_mcp.Policy.Loading.{compiled, Conversions, model_validate}
use sentinel_mcp.Policy.Loading.File.{value, Loader}
use sentinel_mcp.Policy.Loading.Strict.{IsConfig, model_validate-IsConfig}
use sentinel_mcp.Policy.Loading.RoundTrip.{
  write_config, IsWritableConfig, model_validate-write_config,
}
use sentinel_mcp.Policy.Loading.RoundTrip.Constraint.{IsFaithful, IsWritable}
use sentinel_mcp.Identity.Resolver.{key_of}
use sentinel_mcp.Identity.Middleware.{Context}
use sentinel_mcp.Bridge.State.{Gateway, Request}
use sentinel_mcp.Bridge.Flight.Inquiry.{Inquiry}
use sentinel_mcp.Bridge.Flight.World.{World, arrived, asked, arrive, ask, here, next}
use sentinel_mcp.Bridge.Flight.Slots.{calls}
use sentinel_mcp.Bridge.Flight.Fetches.{list_lockers, failing_lists, lockers, failing}
use sentinel_mcp.Server.{Scale, App}
use sentinel_mcp.Server.CommandLine.{CommandLine, Numerals, running, parse_args, main}
use sentinel_mcp.Server.CommandLine.Starting.{Starts, main-Starts, IsConfigured, main_iff}
use sentinel_mcp.Server.CommandLine.Serving.{
  ForwardsAsPermitted, main-forwarded, at_first, started-limits,
}
use sentinel_mcp.Tests.Samples.{at_most_ten, policy, runtime, surroundings, gateway, three}
use sentinel_mcp.Tests.Identities.{digest, environ, scope}

abbrev to_str : Json → Option String
to_str (str s) = some s
to_str _ = none

abbrev to_bool : Json → Option Bool
to_bool (bool b) = some b
to_bool _ = none

abbrev to_int : Json → Option ℤ
to_int (int n) = some n
to_int _ = none

abbrev to_float : Json → Option Float
to_float (float x) = some x
to_float _ = none

abbrev conversions : Conversions
conversions = record {
  to_str = to_str;
  to_bool = to_bool;
  to_int = to_int;
  to_float = to_float;
  compile = λ p. compiled;
}

conversions-IsFaithful : IsFaithful conversions
conversions-IsFaithful = record {
  text = λ s. refl;
  truth = λ b. refl;
  whole = λ n. refl;
  real = λ x. refl;
}

at_most_ten-IsWritable : IsWritable conversions at_most_ten
at_most_ten-IsWritable = record {
  in_order = refl;
  no_equals = λ h. refl;
  no_in = λ h. refl;
  no_min = λ h. refl;
  no_max = λ h. ground arith;
  no_min_length = λ h. refl;
  no_max_length = λ h. refl;
  no_min_items = λ h. refl;
  no_max_items = λ h. refl;
  no_pattern = λ h. refl;
  compiles = tt;
}

policy-IsWritable : IsWritableConfig conversions policy
policy-IsWritable = (((at_most_ten-IsWritable, tt), (tt, tt)), tt)

model_validate-write_config_example : model_validate conversions (write_config policy) ≡ some policy
model_validate-write_config_example =
    model_validate-write_config conversions conversions-IsFaithful policy policy-IsWritable

pub valid : model_validate conversions (write_config policy) ≡ some policy
valid = model_validate-write_config conversions conversions-IsFaithful policy policy-IsWritable

model_validate-IsConfig_example : IsConfig (write_config policy)
model_validate-IsConfig_example =
    model_validate-IsConfig conversions (write_config policy) policy valid

abbrev pub loader : Loader
loader = record {
  conversions = conversions;
  read = λ path. value (write_config policy);
  repr = λ s. s;
  validation_error = λ raw. "";
}

abbrev pub command_line : CommandLine
command_line = record {
  upstream_url = some "http://127.0.0.1:8765/mcp";
  policy = some "policy.yaml";
  host = none;
  port = none;
  rate_limit_capacity = none;
  rate_limit_refill_per_second = none;
  max_concurrent_per_principal = none;
  upstream_call_timeout_seconds = none;
  audit_log_path = none;
  audit_redaction_mode = none;
}

abbrev pub scale : Scale
scale = record { ticks = 1000; grain = 1 }

abbrev pub numerals : Numerals
numerals = record {
  to_int = λ s. none;
  to_tokens = λ s. none;
  to_rate = λ s. none;
  to_seconds = λ s. none;
}

main_iff_example :
    ((app : App) × (host : String) × (port : ℤ) × (main runtime scale numerals loader digest environ
          command_line
        ≡ running app host port))
    ↔ IsConfigured runtime scale numerals loader digest environ command_line
main_iff_example = main_iff runtime scale numerals loader digest environ command_line

configured : IsConfigured runtime scale numerals loader digest environ command_line
unfolding parse_args key_of get
configured = record {
  args = _;
  parsed = refl;
  raw = write_config policy;
  reads = refl;
  policy = policy;
  valid = valid;
  below = 9;
  positive = refl;
  usable = ("k-1", refl, (λ p h. h), tt);
}

pub served :
    (app : App) × (host : String) × (port : ℤ) × (main runtime scale numerals loader digest environ
        command_line
      ≡ running app host port)
served = (main_iff runtime scale numerals loader digest environ command_line).1 configured

abbrev context : Context Gateway
context = record { principal_var = none; world = gateway }

main-forwarded_example :
    (start : Starts runtime scale numerals loader digest environ command_line served.0)
    × ForwardsAsPermitted runtime scale numerals loader digest environ command_line served.0
        (surroundings [])
        "read"
        (some three)
        scope
        context
        start
        served.0
main-forwarded_example =
    main-forwarded runtime scale numerals loader digest environ command_line served.0
      (surroundings []) "read" (some three) scope context served.1 served.2 served.3 refl

pub start : Starts runtime scale numerals loader digest environ command_line served.0
start =
    main-Starts runtime scale numerals loader digest environ command_line served.0 served.1 served.2
      served.3

abbrev pub started_world : World
started_world = at_first runtime scale numerals loader digest environ command_line served.0

abbrev pub asking : Request
asking = record {
  surroundings = surroundings [];
  principal = "alice";
  tool_name = "read";
  arguments = three;
}

abbrev inquiring : Inquiry
inquiring = record { principal = "alice"; lock_wait = ok tt; listed = ok [] }

-- A call and a list have arrived.
abbrev both : World
both = asked (arrived started_world asking) inquiring

started-limits_example :
    (pos (calls "alice" both.tasks) ≤ℤ start.args.max_concurrent_per_principal)
    × (lockers both.tasks + list_lockers both.listers ≤ 1)
    × (both.shared.gateway.fetches ≤ 1 + failing both.tasks + failing_lists both.listers)
started-limits_example =
    started-limits runtime scale numerals loader digest environ command_line served.0 start both
      "alice" (next (next here (arrive asking)) (ask inquiring))
