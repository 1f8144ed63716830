-- ===== src/Policy/Engine.antt =====
-- sentinelmcp/policy/engine.py: default-deny tool authorization, the upstream schema's verdict, and the
-- argument constraints. A reason is the data that the source's message names; `message` is its text.
pub mod Spec
pub mod Strict
pub mod Constraint
pub mod Arguments
pub mod Authorization
use Prim.Native.String
use Prim.Native.String.{count}
use sentinel_mcp.Prelude.{
  ℕ, Bool, true, false, not, ◌&&◌, Option, none, some, List, [], ◌∷◌, ◌++◌, map, String, any, elem,
  length, is_some, if◌then◌else◌,
}
use sentinel_mcp.Prelude.Int.{ℤ, pos, leb_ℤ}
use sentinel_mcp.Prelude.Dict.{Dict, get, keys}
use sentinel_mcp.Float.{Float, float_le, float_of_int}
use sentinel_mcp.Json.{Json, int, float, str, arr, obj, Fields, items, fields, kind, kind_eq, py_eq}
use sentinel_mcp.Text.{split, before}
use sentinel_mcp.Policy.Models.{ArgumentConstraint, Effect, allow, deny, ToolPolicy, PolicyConfig}

infixl 5 ◌>>=◌
abbrev pub ◌>>=◌ {ℓ κ} : {A : Type ℓ} {B : Type κ} → Option A → (A → Option B) → Option B
none >>= k = none
some a >>= k = k a

abbrev allows : Effect → Bool
allows allow = true
allows deny = false

unfoldable pub resolve_tool_policy : PolicyConfig → String → String → Option ToolPolicy
resolve_tool_policy policy principal tool_name = do
  principal_policy ← get principal policy.principals
  tool_policy ← get tool_name principal_policy.tools
  if allows tool_policy.effect then some tool_policy else none

pub is_tool_allowed : PolicyConfig → String → String → Bool
is_tool_allowed policy principal tool_name =
    is_some (resolve_tool_policy policy principal tool_name)

pub strict_equal : Json → Json → Bool
strict_equal a b = kind_eq (kind a) (kind b) && py_eq a b

pub strict_in : Json → List Json → Bool
unfolding strict_equal
strict_in value candidates = any (strict_equal value) candidates

-- `isinstance(current, Mapping)`, with its entry at `segment`
abbrev pub member : String → Json → Option Json
member segment (obj fs) = get segment (fields fs)
member segment _ = none

pub walk : Json → List String → Option Json
walk current [] = some current
walk current (segment ∷ rest) = do next ← member segment current; walk next rest

abbrev dot : ℕ
dot = b'.'

unfoldable pub resolve_path : Fields → String → Option Json
unfolding walk
resolve_path arguments path = walk (obj arguments) (split dot path)

unfoldable pub known_top_level_fields : ToolPolicy → List String
known_top_level_fields tool_policy =
    tool_policy.required ++ (tool_policy.forbidden ++ map (before dot) (keys tool_policy.arguments))

pub data Violation : Type 0 where
  missing_required forbidden_present unknown_field : String → Violation
  not_equal not_in below_min above_max : String → Violation
  too_short too_long too_few too_many no_match : String → Violation

-- The value of an `int` or `float` that is not a `bool`.
abbrev pub number : Json → Option Float
number (int n) = some (float_of_int n)
number (float x) = some x
number _ = none

-- `is_number and value >= bound`
abbrev pub at_least : Float → Option Float → Bool
at_least bound none = false
at_least bound (some x) = float_le bound x

abbrev pub at_most : Float → Option Float → Bool
at_most bound none = false
at_most bound (some x) = float_le x bound

-- `isinstance(value, str)` and its length
abbrev pub text_length : Json → Option ℤ
text_length (str s) = some (pos (count s))
text_length _ = none

-- `isinstance(value, list)` and its length
abbrev pub list_length : Json → Option ℤ
list_length (arr vs) = some (pos (length (items vs)))
list_length _ = none

abbrev pub length_at_least : ℤ → Option ℤ → Bool
length_at_least bound none = false
length_at_least bound (some n) = leb_ℤ bound n

abbrev pub length_at_most : ℤ → Option ℤ → Bool
length_at_most bound none = false
length_at_most bound (some n) = leb_ℤ n bound

-- `constraint.x is not None and not ok(constraint.x)`
abbrev pub breaks {ℓ} : {B : Type ℓ} → Option B → (B → Bool) → Bool
breaks none ok = false
breaks (some b) ok = not (ok b)

-- `constraint.in_ or []`
abbrev pub or_empty : Option (List Json) → List Json
or_empty none = []
or_empty (some vs) = vs

-- The message of a reason; `repr` is Python's `repr` of a text.
unfoldable pub message : (repr : String → String) → Violation → String
message repr v = elim v [
  | missing_required name ↦ String.◌++◌ "missing required field " (repr name)
  | forbidden_present name ↦ String.◌++◌ "forbidden field " (String.◌++◌ (repr name) " was present")
  | unknown_field name ↦ String.◌++◌ "unknown field " (repr name)
  | not_equal path ↦ String.◌++◌ (repr path) " does not equal the configured value"
  | not_in path ↦ String.◌++◌ (repr path) " is not one of the allowed values"
  | below_min path ↦ String.◌++◌ (repr path) " is below the configured minimum"
  | above_max path ↦ String.◌++◌ (repr path) " is above the configured maximum"
  | too_short path ↦ String.◌++◌ (repr path) " is shorter than the configured minimum length"
  | too_long path ↦ String.◌++◌ (repr path) " is longer than the configured maximum length"
  | too_few path ↦ String.◌++◌ (repr path) " has fewer than the configured minimum items"
  | too_many path ↦ String.◌++◌ (repr path) " has more than the configured maximum items"
  | no_match path ↦ String.◌++◌ (repr path) " does not match the configured pattern"
]

-- A `return reason` ends the function: the first reason is the result.
abbrev pub or_else : Option Violation → Option Violation → Option Violation
or_else (some reason) later = some reason
or_else none later = later

-- for name in required: if name not in arguments
check_required : List String → List String → Option Violation
check_required [] present = none
check_required (name ∷ rest) present =
    if elem name present then check_required rest present else some (missing_required name)

-- for name in forbidden: if name in arguments
check_forbidden : List String → List String → Option Violation
check_forbidden [] present = none
check_forbidden (name ∷ rest) present =
    if elem name present then some (forbidden_present name) else check_forbidden rest present

-- for name in arguments: if name not in known
check_known : List String → List String → Option Violation
check_known known [] = none
check_known known (name ∷ rest) =
    if elem name known then check_known known rest else some (unknown_field name)

-- `fullmatch p s` is whether `re.fullmatch(p, s)` finds a match.
module _ (fullmatch : String → String → Bool) where
  abbrev pub matches : String → Json → Bool
  matches pattern (str s) = fullmatch pattern s
  matches pattern _ = false

  unfoldable pub check_constraint : String → Json → ArgumentConstraint → Option Violation
  check_constraint path value c =
      if elem "equals" c.model_fields_set && not (strict_equal value c.equals)
      then some (not_equal path)
      else if elem "in_" c.model_fields_set && not (strict_in value (or_empty c.in_))
      then some (not_in path)
      else if breaks c.min (λ bound. at_least bound (number value))
      then some (below_min path)
      else if breaks c.max (λ bound. at_most bound (number value))
      then some (above_max path)
      else if breaks c.min_length (λ bound. length_at_least bound (text_length value))
      then some (too_short path)
      else if breaks c.max_length (λ bound. length_at_most bound (text_length value))
      then some (too_long path)
      else if breaks c.min_items (λ bound. length_at_least bound (list_length value))
      then some (too_few path)
      else if breaks c.max_items (λ bound. length_at_most bound (list_length value))
      then some (too_many path)
      else if breaks c.pattern (λ pattern. matches pattern value)
      then some (no_match path)
      else none

  -- `value, present = ...; if not present: continue`
  check_value : String → ArgumentConstraint → Option Json → Option Violation
  check_value path constraint none = none
  check_value path constraint (some value) = check_constraint path value constraint

  -- for path, constraint in arguments.items()
  check_paths : Fields → Dict ArgumentConstraint → Option Violation
  check_paths arguments [] = none
  check_paths arguments ((path, constraint) ∷ rest) =
      or_else (check_value path constraint (resolve_path arguments path))
        (check_paths arguments rest)

  unfoldable pub evaluate_argument_policy : ToolPolicy → Fields → Option Violation
  unfolding check_required check_forbidden check_known check_value check_paths
  evaluate_argument_policy tool_policy arguments =
      or_else (check_required tool_policy.required (keys (fields arguments))) (
        or_else (check_forbidden tool_policy.forbidden (keys (fields arguments))) (
          or_else
            (if tool_policy.deny_unknown_arguments
              then check_known (known_top_level_fields tool_policy) (keys (fields arguments))
              else none)
            (check_paths arguments tool_policy.arguments)))
