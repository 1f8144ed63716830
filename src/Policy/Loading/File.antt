-- ===== src/Policy/Loading/File.antt =====
-- `load_policy` of sentinelmcp/policy/models.py. The file system with the YAML parser, `repr` and the texts
-- of exceptions are parameters.
pub mod Failing
use Prim.Native.String
use sentinel_mcp.Prelude.{Option, none, some, String}
use sentinel_mcp.Json.{Json, obj}
use sentinel_mcp.Exec.{Exn}
use sentinel_mcp.Policy.Models.{PolicyConfig}
use sentinel_mcp.Policy.Loading.{Conversions, model_validate}
use sentinel_mcp.Policy.Loading.Escapes.{model_validate_escape}

-- What opening the file and `yaml.safe_load` give: the value, or the text of an `OSError` or of a
-- `yaml.YAMLError`, or any other exception.
pub data Reading : Type 0 where
  value : Json → Reading
  os_error yaml_error : String → Reading
  other_error : Exn → Reading

pub data Loading : Type 0 where
  loaded : PolicyConfig → Loading
  policy_load_error : String → Loading
  escaped : Exn → Loading

-- The file system with the YAML parser, `repr`, and the text of pydantic's `ValidationError` for a value.
pub record Loader : Type 0 where
  pub conversions : Conversions
  pub read : String → Reading
  pub repr : String → String
  pub validation_error : Json → String

infixl 20 ◌<>◌
abbrev ◌<>◌ : String → String → String
s <> t = String.◌++◌ s t

module _ (ld : Loader) where
  validated : String → Json → Option PolicyConfig → Loading
  validated path raw none =
      policy_load_error
        ("invalid policy structure in " <> ld.repr path <> ": " <> ld.validation_error raw)
  validated path raw (some policy) = loaded policy

  -- Only a ValidationError is caught.
  checked : String → Json → Option Exn → Loading
  unfolding validated model_validate
  checked path raw (some e) = escaped e
  checked path raw none = validated path raw (model_validate ld.conversions raw)

  structured : String → Json → Loading
  unfolding checked model_validate_escape
  structured path (obj fs) = checked path (obj fs) (model_validate_escape ld.conversions (obj fs))
  structured path _ =
      policy_load_error
        ("policy file " <> ld.repr path <> " must contain a YAML mapping at the top level")

  load_from : String → Reading → Loading
  unfolding structured
  load_from path (os_error reason) =
      policy_load_error ("could not read policy file " <> ld.repr path <> ": " <> reason)
  load_from path (yaml_error reason) =
      policy_load_error ("invalid YAML in " <> ld.repr path <> ": " <> reason)
  load_from path (other_error e) = escaped e
  load_from path (value raw) = structured path raw

  unfoldable pub load_policy : String → Loading
  unfolding load_from
  load_policy path = load_from path (ld.read path)
