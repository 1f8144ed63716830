-- ===== src/Policy/Loading/Escapes.antt =====
-- What comes out of `PolicyConfig.model_validate` of sentinelmcp/policy/models.py beside a ValidationError.
-- `_pattern_must_compile` turns a `re.error` alone into a ValueError; any other exception of `re.compile`,
-- such as the OverflowError for a repetition that is too large, passes through pydantic. Pydantic collects the
-- errors of the fields and goes on, so that it comes to every pattern there is, up to the first that
-- raises so.
pub mod Absent
pub mod Raising
use sentinel_mcp.Prelude.{Option, none, some, String}
use sentinel_mcp.Json.{Json, obj, Fields, end, field}
use sentinel_mcp.Exec.{Exn}
use sentinel_mcp.Policy.Loading.{Compilation, escapes, Conversions, given, nullable}

abbrev pub escape_of : Compilation → Option Exn
escape_of (escapes e) = some e
escape_of _ = none

abbrev pub or_next : Option Exn → Option Exn → Option Exn
or_next (some e) later = some e
or_next none later = later

-- The value of a field, where it is given.
abbrev pub in_given : (Json → Option Exn) → Option Json → Option Exn
in_given f none = none
in_given f (some v) = f v

abbrev pub in_field : String → (Json → Option Exn) → Json → Option Exn
in_field key f (obj fs) = in_given f (given key fs)
in_field key f _ = none

-- The values of a dictionary, in their order.
abbrev pub first_of : (Json → Option Exn) → Fields → Option Exn
first_of f end = none
first_of f (field k v fs) = or_next (f v) (first_of f fs)

abbrev pub in_dict : (Json → Option Exn) → Json → Option Exn
in_dict f (obj fs) = first_of f fs
in_dict f _ = none

module _ (c : Conversions) where
  -- A pattern that pydantic takes for a text or for `None`.
  abbrev pub converted_escape : Option (Option String) → Option Exn
  converted_escape (some (some p)) = escape_of (c.compile p)
  converted_escape _ = none

  unfoldable pub pattern_escape : Json → Option Exn
  pattern_escape v = converted_escape (nullable c.to_str v)

  unfoldable pub constraint_escape : Json → Option Exn
  unfolding pattern_escape
  constraint_escape = in_field "pattern" pattern_escape

  unfoldable pub tool_escape : Json → Option Exn
  unfolding constraint_escape
  tool_escape = in_field "arguments" (in_dict constraint_escape)

  unfoldable pub principal_escape : Json → Option Exn
  unfolding tool_escape
  principal_escape = in_field "tools" (in_dict tool_escape)

  -- The exception, other than a ValidationError, of `PolicyConfig.model_validate`.
  unfoldable pub model_validate_escape : Json → Option Exn
  unfolding principal_escape
  model_validate_escape = in_field "principals" (in_dict principal_escape)
