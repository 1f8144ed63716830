-- ===== src/Audit/Redaction.antt =====
-- `_redact`, `_keys_only` and `represent_arguments` of sentinelmcp/telemetry/audit.py. The keys of the
-- arguments are texts, on which `str(key)` is the identity.
pub mod Leaks
pub mod Shapes
pub mod Shown
use sentinel_mcp.Prelude.{Bool, String, if◌then◌else◌}
use sentinel_mcp.Json.{Json, null, str, arr, obj, Items, nil, item, Fields, end, field}

pub data RedactionMode : Type 0 where
  none keys_only redacted full : RedactionMode

abbrev pub redacted_placeholder : Json
redacted_placeholder = str "***REDACTED***"

unfoldable mutual
  pub keys_only_of : Json → Json
  keys_only_of (obj fs) = obj (keys_only_fields fs)
  keys_only_of (arr vs) = arr (keys_only_items vs)
  keys_only_of _ = str "<value>"

  pub keys_only_items : Items → Items
  keys_only_items nil = nil
  keys_only_items (item v vs) = item (str "<item>") (keys_only_items vs)

  pub keys_only_fields : Fields → Fields
  keys_only_fields end = end
  keys_only_fields (field k v fs) = field k (keys_only_of v) (keys_only_fields fs)

-- `sensitive` is `_is_sensitive_name`.
module _ (sensitive : String → Bool) where
  unfoldable mutual
    pub redact : Json → Json
    redact (obj fs) = obj (redact_fields fs)
    redact (arr vs) = arr (redact_items vs)
    redact v = v

    pub redact_items : Items → Items
    redact_items nil = nil
    redact_items (item v vs) = item (redact v) (redact_items vs)

    pub redact_fields : Fields → Fields
    redact_fields end = end
    redact_fields (field k v fs) =
        field k (if sensitive k then redacted_placeholder else redact v) (redact_fields fs)

  unfoldable pub represent_arguments : Fields → RedactionMode → Json
  unfolding redact keys_only_of
  represent_arguments arguments none = null
  represent_arguments arguments keys_only = keys_only_of (obj arguments)
  represent_arguments arguments redacted = redact (obj arguments)
  represent_arguments arguments full = obj arguments
