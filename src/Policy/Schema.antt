-- ===== src/Policy/Schema.antt =====
-- `validate_input_schema` of sentinelmcp/policy/engine.py. What `jsonschema.validate` does at a schema and
-- arguments is the parameter `validate`: it returns, or raises one of three kinds of exception.
use Prim.Native.String
use sentinel_mcp.Prelude.{Option, none, some, String}
use sentinel_mcp.Json.{Json, Fields}

pub data SchemaVerdict : Type 0 where
  conforms : SchemaVerdict
  validation_error schema_error other_error : String → SchemaVerdict

abbrev pub reason_of : SchemaVerdict → Option String
reason_of conforms = none
reason_of (validation_error message) = some message
reason_of (schema_error message) = some (String.◌++◌ "upstream inputSchema is invalid: " message)
reason_of (other_error message) =
    some (String.◌++◌ "upstream inputSchema could not be evaluated: " message)

unfoldable pub validate_input_schema :
    (validate : Json → Fields → SchemaVerdict) → Option Json → Fields → Option String
validate_input_schema validate none arguments = none
validate_input_schema validate (some schema) arguments = reason_of (validate schema arguments)
