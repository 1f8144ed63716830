-- ===== src/Tests/Records.antt =====
-- The audit log (sentinelmcp/telemetry/audit.py) at small inputs.
use sentinel_mcp.Prelude.{
  ℕ, ◌+◌, ◌≡◌, map, arith, refl, inl, inr, true, false, none, List, [], ◌∷◌, String,
}
use sentinel_mcp.Prelude.Int.{pos}
use sentinel_mcp.Float.{frac}
use sentinel_mcp.Json.{null, int, str, arr, obj, nil, item, Fields, end, field}
use sentinel_mcp.Json.Dumps.{dumps}
use sentinel_mcp.Text.{split}
use sentinel_mcp.Bridge.CallTool.{line_of}
use sentinel_mcp.Bridge.CallTool.LogFile.{file_of, split-file_of}
use sentinel_mcp.Audit.Names.{codes, is_sensitive_name}
use sentinel_mcp.Audit.Names.Laws.{
  IsSmall, IsCapital, Spells, whole, put_in, left_out, small, capital,
  is_sensitive_name_of_spelling,
}
use sentinel_mcp.Audit.Redaction.{redacted, keys_only, represent_arguments}
use sentinel_mcp.Audit.Redaction.Leaks.{secret, open_field, same, no_fields, objects}
use sentinel_mcp.Audit.Redaction.Shapes
use sentinel_mcp.Audit.Redaction.Shapes.{
  one_field, one_more, no_items, represent_arguments-keys_only,
}
use sentinel_mcp.Audit.Record.{AuditRecord, policy_denied, passed, failed, not_evaluated, serialize}
use sentinel_mcp.Audit.Record.{payload}
use sentinel_mcp.Audit.Record.Schema.{Conforms, payload-Conforms}
use sentinel_mcp.Audit.Record.Lines.{serialize-secrets}
use sentinel_mcp.Tests.Samples.{three, runtime, config, surroundings}

abbrev lower_other : ℕ → List ℕ
lower_other c = c ∷ []

-- A small and a capital letter more of a spelling.
a_small : (c : ℕ) {s f : List ℕ} → IsSmall c → Spells s f → Spells (c ∷ s) (c ∷ f)
a_small c letter more = small c _ _ letter more

a_capital : (c : ℕ) {s f : List ℕ} → IsCapital c → Spells s f → Spells (c ∷ s) ((c + 32) ∷ f)
a_capital c letter more = capital c _ _ letter more

spelled_y : Spells (codes "ey") (codes "ey")
spelled_y = a_small b'e' (omega arith, omega arith) (a_small b'y' (omega arith, omega arith) whole)

spelled_capital : Spells (codes "API-Key") (codes "api_key")
spelled_capital =
    a_capital b'A' (omega arith, omega arith)
      (a_capital b'P' (omega arith, omega arith)
        (a_capital b'I' (omega arith, omega arith)
          (put_in b'-' _ _ (inr refl)
            (left_out b'_' _ _ (inl refl) (a_capital b'K' (omega arith, omega arith) spelled_y)))))

spelled_small : Spells (codes "api_key") (codes "api_key")
spelled_small =
    a_small b'a' (omega arith, omega arith)
      (a_small b'p' (omega arith, omega arith)
        (a_small b'i' (omega arith, omega arith)
          (put_in b'_' _ _ (inl refl)
            (left_out b'_' _ _ (inl refl) (a_small b'k' (omega arith, omega arith) spelled_y)))))

-- The fragment `api_key`, spelled `API-Key`.
is_sensitive_name_of_spelling_example : is_sensitive_name lower_other "x-API-Key-1" ≡ true
is_sensitive_name_of_spelling_example =
    is_sensitive_name_of_spelling lower_other "x-API-Key-1" "api_key" (codes "x-") (codes "API-Key")
      (codes "-1") (inr (inr (inr (inl refl)))) refl spelled_capital

abbrev logged : Fields → AuditRecord
logged arguments = record {
  correlation_id = "c-1";
  principal = "alice";
  session_id = none;
  tool_name = "login";
  arguments = arguments;
  outcome = policy_denied;
  matched_rule = none;
  schema_result = not_evaluated;
  policy_result = failed;
  rate_limit_result = passed;
  concurrency_result = not_evaluated;
  upstream_attempted = false;
  upstream_result_category = none;
  policy_latency_ms = none;
  upstream_latency_ms = none;
  total_latency_ms = frac (pos 1) 0;
  timestamp = "2026-01-01T00:00:00+00:00";
}

-- {"user": "u", "auth": {"api_key": key}}
abbrev login : String → Fields
login key = field "user" (str "u") (field "auth" (obj (field "api_key" (str key) end)) end)

is_key : is_sensitive_name lower_other "api_key" ≡ true
is_key =
    is_sensitive_name_of_spelling lower_other "api_key" "api_key" [] (codes "api_key") []
      (inr (inr (inr (inl refl)))) refl spelled_small

serialize-secrets_example :
    serialize (is_sensitive_name lower_other) runtime.float_repr redacted (logged (login "one"))
    ≡ serialize (is_sensitive_name lower_other) runtime.float_repr redacted (logged (login "two"))
serialize-secrets_example =
    serialize-secrets (is_sensitive_name lower_other) runtime.float_repr (logged (login "one"))
      (login "two") (open_field same (open_field (objects (secret is_key no_fields)) no_fields))

-- [{"user": "u"}] and [1] have one representation: the names inside a list are not written.
represent_arguments-keys_only_example :
    represent_arguments
      (is_sensitive_name lower_other)
      (field "rows" (arr (item (obj (field "user" (str "u") end)) nil)) end)
      keys_only
    ≡ represent_arguments
        (is_sensitive_name lower_other)
        (field "rows" (arr (item (int (pos 1)) nil)) end)
        keys_only
represent_arguments-keys_only_example =
    represent_arguments-keys_only (is_sensitive_name lower_other)
      (field "rows" (arr (item (obj (field "user" (str "u") end)) nil)) end)
      (field "rows" (arr (item (int (pos 1)) nil)) end)
      (one_field (Shapes.lists (one_more no_items)) Shapes.no_fields)

dumps_escaped :
    dumps (λ x. "1.5") (obj (field "a\n\"é" (arr (item (int (pos 12)) (item null nil))) end))
    ≡ "{\"a\\n\\\"\\u00e9\":[12,null]}"
unfolding dumps
dumps_escaped = refl

-- A tool name with a newline in it.
abbrev forged : AuditRecord
forged = record (logged (login "one")) { tool_name = "read\n{}" }

split-file_of_example :
    split 10 (
      file_of (
        map (line_of runtime config (surroundings []) "alice" "read" three) (forged ∷ forged ∷ [])))
    ≡ serialize (is_sensitive_name runtime.lower_other) runtime.float_repr redacted forged
      ∷ serialize (is_sensitive_name runtime.lower_other) runtime.float_repr redacted forged
      ∷ ""
      ∷ []
split-file_of_example =
    split-file_of runtime config (surroundings []) "alice" "read" three (forged ∷ forged ∷ [])
      (λ x. ground arith)

payload-Conforms_example :
    Conforms
      (is_sensitive_name lower_other)
      redacted
      (payload (is_sensitive_name lower_other) redacted (logged (login "one")))
payload-Conforms_example =
    payload-Conforms (is_sensitive_name lower_other) redacted (logged (login "one")) (inl refl)
