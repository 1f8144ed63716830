-- ===== src/Policy/Loading.antt =====
-- The validation that the model classes of sentinelmcp/policy/models.py ask of pydantic. A file's value is
-- one that JSON can hold. Pydantic's conversions of single values and `re.compile` are parameters; the
-- fields with their types, aliases and defaults, and `extra="forbid"`, are the classes' own.
pub mod Strict
pub mod RoundTrip
pub mod Escapes
pub mod File
use sentinel_mcp.Prelude.{
  Bool, true, false, ◌&&◌, Option, none, some, List, [], ◌∷◌, String, str_eq, elem, is_some,
  if◌then◌else◌,
}
use sentinel_mcp.Prelude.Int.{ℤ}
use sentinel_mcp.Prelude.Dict.{Dict, get}
use sentinel_mcp.Float.{Float}
use sentinel_mcp.Json.{Json, null, str, arr, obj, Items, nil, item, Fields, end, field, fields}
use sentinel_mcp.Exec.{Exn}
use sentinel_mcp.Policy.Engine.{◌>>=◌}
use sentinel_mcp.Policy.Models.{
  ArgumentConstraint, Effect, allow, deny, ToolPolicy, PrincipalPolicy, PolicyConfig,
}

-- How `re.compile` ends: it takes the pattern, or it raises a `re.error` or some other exception.
pub data Compilation : Type 0 where
  compiled re_error : Compilation
  escapes : Exn → Compilation

abbrev pub is_compiled : Compilation → Bool
is_compiled compiled = true
is_compiled _ = false

-- Pydantic's conversions to `str`, `bool`, `int` and `float`, and `re.compile`.
pub record Conversions : Type 0 where
  pub to_str : Json → Option String
  pub to_bool : Json → Option Bool
  pub to_int : Json → Option ℤ
  pub to_float : Json → Option Float
  pub compile : String → Compilation

abbrev pub given : String → Fields → Option Json
given k fs = get k (fields fs)

-- `extra="forbid"`
abbrev pub only : List String → Fields → Bool
only names end = true
only names (field k v fs) = elem k names && only names fs

module _ {A : Type 0} where
  -- A field with a default.
  abbrev pub or_default : A → (Json → Option A) → Option Json → Option A
  or_default d convert none = some d
  or_default d convert (some v) = convert v

  -- A field without one.
  abbrev pub needed : (Json → Option A) → Option Json → Option A
  needed convert none = none
  needed convert (some v) = convert v

  -- `A | None`
  abbrev pub nullable : (Json → Option A) → Json → Option (Option A)
  nullable convert null = some none
  nullable convert v = convert v >>= λ a. some (some a)

  abbrev pub list_of : (Json → Option A) → Items → Option (List A)
  list_of convert nil = some []
  list_of convert (item v vs) = do a ← convert v; rest ← list_of convert vs; some (a ∷ rest)

  -- `list[A]`
  abbrev pub to_list : (Json → Option A) → Json → Option (List A)
  to_list convert (arr vs) = list_of convert vs
  to_list convert _ = none

  abbrev pub dict_of : (Json → Option A) → Fields → Option (Dict A)
  dict_of convert end = some []
  dict_of convert (field k v fs) = do a ← convert v; rest ← dict_of convert fs; some ((k, a) ∷ rest)

  -- `dict[str, A]`
  abbrev pub to_dict : (Json → Option A) → Json → Option (Dict A)
  to_dict convert (obj fs) = dict_of convert fs
  to_dict convert _ = none

-- The names of the given fields: each field with the key that it is given by.
abbrev pub fields_set : List (String × String) → Fields → List String
fields_set [] fs = []
fields_set ((name, key) ∷ rest) fs =
    let later = fields_set rest fs in if is_some (given key fs) then name ∷ later else later

-- The key of `in_`: its alias, or else its name (`populate_by_name`).
abbrev pub in_key : Fields → String
in_key fs = if is_some (given "in" fs) then "in" else "in_"

-- The keys of a constraint's other operators are their names.
abbrev pub operator_keys : (in_by : String) → List (String × String)
operator_keys in_by =
    ("equals", "equals")
    ∷ ("in_", in_by)
    ∷ ("min", "min")
    ∷ ("max", "max")
    ∷ ("min_length", "min_length")
    ∷ ("max_length", "max_length")
    ∷ ("min_items", "min_items")
    ∷ ("max_items", "max_items")
    ∷ ("pattern", "pattern")
    ∷ []

abbrev pub seconds : List (String × String) → List String
seconds [] = []
seconds ((name, key) ∷ rest) = key ∷ seconds rest

abbrev pub tool_keys : List String
tool_keys = "effect" ∷ "required" ∷ "forbidden" ∷ "deny_unknown_arguments" ∷ "arguments" ∷ []

abbrev pub principal_keys : List String
principal_keys = "api_key_env" ∷ "tools" ∷ []

abbrev pub config_keys : List String
config_keys = "principals" ∷ []

-- Literal["allow", "deny"]
abbrev pub to_effect : Json → Option Effect
to_effect (str s) =
    if str_eq s "allow" then some allow else if str_eq s "deny" then some deny else none
to_effect _ = none

module _ (c : Conversions) where
  -- _pattern_must_compile, where it gives a value; `Escapes` has what it raises beside a ValueError.
  abbrev pub pattern_must_compile : Option String → Option (Option String)
  pattern_must_compile none = some none
  pattern_must_compile (some p) = if is_compiled (c.compile p) then some (some p) else none

  abbrev pub to_pattern : Json → Option (Option String)
  to_pattern v = nullable c.to_str v >>= pattern_must_compile

  pub constraint_from : Fields → Option ArgumentConstraint
  constraint_from fs = do
    equals ← or_default null some (given "equals" fs)
    in_ ← or_default none (nullable (to_list some)) (given (in_key fs) fs)
    min ← or_default none (nullable c.to_float) (given "min" fs)
    max ← or_default none (nullable c.to_float) (given "max" fs)
    min_length ← or_default none (nullable c.to_int) (given "min_length" fs)
    max_length ← or_default none (nullable c.to_int) (given "max_length" fs)
    min_items ← or_default none (nullable c.to_int) (given "min_items" fs)
    max_items ← or_default none (nullable c.to_int) (given "max_items" fs)
    pattern ← or_default none to_pattern (given "pattern" fs)
    some (record {
      model_fields_set = fields_set (operator_keys (in_key fs)) fs;
      equals = equals;
      in_ = in_;
      min = min;
      max = max;
      min_length = min_length;
      max_length = max_length;
      min_items = min_items;
      max_items = max_items;
      pattern = pattern;
    })

  pub to_constraint : Json → Option ArgumentConstraint
  unfolding constraint_from
  to_constraint (obj fs) =
      if only (seconds (operator_keys (in_key fs))) fs then constraint_from fs else none
  to_constraint _ = none

  pub tool_from : Fields → Option ToolPolicy
  unfolding to_constraint
  tool_from fs = do
    effect ← needed to_effect (given "effect" fs)
    required ← or_default [] (to_list c.to_str) (given "required" fs)
    forbidden ← or_default [] (to_list c.to_str) (given "forbidden" fs)
    deny_unknown_arguments ← or_default true c.to_bool (given "deny_unknown_arguments" fs)
    arguments ← or_default [] (to_dict to_constraint) (given "arguments" fs)
    some (record {
      effect = effect;
      required = required;
      forbidden = forbidden;
      deny_unknown_arguments = deny_unknown_arguments;
      arguments = arguments;
    })

  pub to_tool : Json → Option ToolPolicy
  unfolding tool_from
  to_tool (obj fs) = if only tool_keys fs then tool_from fs else none
  to_tool _ = none

  pub principal_from : Fields → Option PrincipalPolicy
  unfolding to_tool
  principal_from fs = do
    api_key_env ← needed c.to_str (given "api_key_env" fs)
    tools ← or_default [] (to_dict to_tool) (given "tools" fs)
    some (record { api_key_env = api_key_env; tools = tools })

  pub to_principal : Json → Option PrincipalPolicy
  unfolding principal_from
  to_principal (obj fs) = if only principal_keys fs then principal_from fs else none
  to_principal _ = none

  pub config_from : Fields → Option PolicyConfig
  unfolding to_principal
  config_from fs = do
    principals ← needed (to_dict to_principal) (given "principals" fs)
    some (record { principals = principals })

  -- PolicyConfig.model_validate, where it gives a value
  unfoldable pub model_validate : Json → Option PolicyConfig
  unfolding config_from
  model_validate (obj fs) = if only config_keys fs then config_from fs else none
  model_validate _ = none
