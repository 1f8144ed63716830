-- ===== src/Tests/Samples.antt =====
-- The data that the tests share: a policy of one principal with two rules, arguments, and a gateway.
use sentinel_mcp.Prelude.{Bool, true, false, none, some, List, [], ◌∷◌, String, str_eq}
use sentinel_mcp.Prelude.Int.{pos}
use sentinel_mcp.Float.{frac}
use sentinel_mcp.Json.{null, int, Fields, end, field}
use sentinel_mcp.Exec.{ok}
use sentinel_mcp.Policy.Models.{
  ArgumentConstraint, allow, deny, ToolPolicy, PrincipalPolicy, PolicyConfig,
}
use sentinel_mcp.Policy.Schema.{conforms}
use sentinel_mcp.Audit.Redaction.{redacted}
use sentinel_mcp.Bridge.Results.{CallToolResult, text_content}
use sentinel_mcp.Bridge.State.{Tool, Gateway, Runtime, Config, Fate, Surroundings}

-- `max: 10`
abbrev pub at_most_ten : ArgumentConstraint
at_most_ten = record {
  model_fields_set = "max" ∷ [];
  equals = null;
  in_ = none;
  min = none;
  max = some (frac (pos 10) 0);
  min_length = none;
  max_length = none;
  min_items = none;
  max_items = none;
  pattern = none;
}

abbrev pub read_rule : ToolPolicy
read_rule = record {
  effect = allow;
  required = "limit" ∷ [];
  forbidden = "force" ∷ [];
  deny_unknown_arguments = true;
  arguments = ("limit", at_most_ten) ∷ [];
}

abbrev pub delete_rule : ToolPolicy
delete_rule = record {
  effect = deny;
  required = [];
  forbidden = [];
  deny_unknown_arguments = false;
  arguments = [];
}

abbrev pub alice : PrincipalPolicy
alice = record {
  api_key_env = "ALICE_KEY";
  tools = ("read", read_rule) ∷ ("delete", delete_rule) ∷ [];
}

abbrev pub policy : PolicyConfig
policy = record { principals = ("alice", alice) ∷ [] }

-- {"limit": 3}
abbrev pub three : Fields
three = field "limit" (int (pos 3)) end

abbrev pub echo : String → String → Bool
echo p s = str_eq p s

abbrev pub runtime : Runtime
runtime = record {
  fullmatch = echo;
  repr = λ s. s;
  lower_other = λ c. c ∷ [];
  float_repr = λ x. "1.5";
  validate = λ schema arguments. conforms;
}

abbrev pub config : Config
config = record {
  policy = policy;
  upstream_call_timeout = some 30;
  redaction_mode = redacted;
  token = 1;
}

abbrev pub read_tool : Tool
read_tool = record { name = "read"; input_schema = some null; other = null }

abbrev pub delete_tool : Tool
delete_tool = record { name = "delete"; input_schema = none; other = null }

abbrev pub tools : List Tool
tools = read_tool ∷ delete_tool ∷ []

abbrev pub done : CallToolResult
done = record {
  content = text_content "done" ∷ [];
  structured_content = none;
  is_error = false;
  meta = none;
}

-- The upstream answers after 5 units of time.
abbrev pub surroundings : List Fate → Surroundings
surroundings disk = record {
  correlation_id = "c-1";
  timestamp = "2026-01-01T00:00:00+00:00";
  session_id = none;
  created = 100;
  now = 100;
  lock_wait = ok tt;
  listed = ok tools;
  called = λ name arguments. record { duration = 5; outcome = ok done };
  policy_elapsed = frac (pos 1) 0;
  upstream_elapsed = frac (pos 5) 0;
  total_elapsed = frac (pos 6) 0;
  disk = disk;
}

-- Two tokens and two executions for each principal; nothing was done yet.
abbrev pub gateway : Gateway
gateway = record {
  rate_limiter = record { capacity = pos 2; refill_rate = pos 1; buckets = [] };
  concurrency_limiter = record { max_concurrent = 2; active = []; peak = [] };
  tools = none;
  log = [];
  fetches = 0;
  forwarded = [];
}
