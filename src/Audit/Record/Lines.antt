-- ===== src/Audit/Record/Lines.antt =====
-- What the line of a record, from `AuditLogger._serialize` of sentinelmcp/telemetry/audit.py, depends on.
use sentinel_mcp.Prelude.{◌≡◌, refl, Bool, String}
use sentinel_mcp.Float.{Float}
use sentinel_mcp.Json.{Fields}
use sentinel_mcp.Audit.Redaction.{redacted}
use sentinel_mcp.Audit.Redaction.Leaks.{SameFields, represent_arguments-redacted}
use sentinel_mcp.Audit.Record.{AuditRecord, serialize}

-- In the default mode, records that differ only in what stands under sensitive argument names, at any
-- depth, are written as the same line.
pub serialize-secrets :
    (sensitive : String → Bool) (float_repr : Float → String) (r : AuditRecord) (fs : Fields)
    → SameFields sensitive r.arguments fs
    → serialize sensitive float_repr redacted r
      ≡ serialize sensitive float_repr redacted (record r { arguments = fs })
unfolding serialize
serialize-secrets sensitive float_repr r fs h =
    rw (represent_arguments-redacted sensitive r.arguments fs h) refl
