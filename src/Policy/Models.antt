-- ===== src/Policy/Models.antt =====
-- The models of sentinelmcp/policy/models.py, as they are after validation.
use sentinel_mcp.Prelude.{Bool, Option, List, String}
use sentinel_mcp.Prelude.Int.{ℤ}
use sentinel_mcp.Prelude.Dict.{Dict}
use sentinel_mcp.Float.{Float}
use sentinel_mcp.Json.{Json}

-- `model_fields_set` names the operators that the configuration gives.
pub record ArgumentConstraint : Type 0 where
  pub model_fields_set : List String
  pub equals : Json
  pub in_ : Option (List Json)
  pub min : Option Float
  pub max : Option Float
  pub min_length : Option ℤ
  pub max_length : Option ℤ
  pub min_items : Option ℤ
  pub max_items : Option ℤ
  pub pattern : Option String

pub data Effect : Type 0 where
  allow deny : Effect

pub record ToolPolicy : Type 0 where
  pub effect : Effect
  pub required : List String
  pub forbidden : List String
  pub deny_unknown_arguments : Bool
  pub arguments : Dict ArgumentConstraint

pub record PrincipalPolicy : Type 0 where
  pub api_key_env : String
  pub tools : Dict ToolPolicy

pub record PolicyConfig : Type 0 where
  pub principals : Dict PrincipalPolicy
