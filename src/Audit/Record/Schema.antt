-- ===== src/Audit/Record/Schema.antt =====
-- A schema for the payload that `AuditLogger._serialize` (sentinelmcp/telemetry/audit.py) writes, for
-- each redaction mode.
use sentinel_mcp.Prelude.{
  ◌≡◌, refl, ◌⊎◌, inl, inr, Bool, Option, none, some, List, [], ◌∷◌, String, IsIn, arith,
}
use sentinel_mcp.Float.{Float}
use sentinel_mcp.Json.{Json, null, bool, int, float, str, arr, obj, Fields, end, field}
use sentinel_mcp.Audit.Redaction.{RedactionMode, represent_arguments}
use sentinel_mcp.Audit.Redaction.Shown.{IsShownAs, represent_arguments-IsShownAs}
use sentinel_mcp.Audit.Record.{
  AuditOutcome, rate_limited, policy_denied, schema_rejected, concurrency_rejected,
  upstream_success, upstream_error, upstream_timeout, cancelled, internal_error, value_of,
  CheckResult, passed, failed, not_evaluated, check_text, Category, success, error, timeout,
  stopped, category_text, AuditRecord, or_null, payload,
}

module _ (sensitive : String → Bool) where
  -- The types of the payload's fields: a text, one of some words, a truth value, a number, one of these
  -- or `null`, and the arguments as a mode shows them.
  pub data FieldType : Type 0 where
    text flag number : FieldType
    word : List String → FieldType
    nullable : FieldType → FieldType
    shown_as : RedactionMode → FieldType

  pub HasType : FieldType → Json → Type 0
  HasType text (str s) = Unit
  HasType flag (bool b) = Unit
  HasType number (float x) = Unit
  HasType (word words) (str s) = IsIn s words
  HasType (nullable type) null = Unit
  HasType (nullable type) v = HasType type v
  HasType (shown_as mode) v = IsShownAs sensitive mode v
  HasType _ _ = ⊥

  -- The fields that are named, in their order, each of its type, and no other.
  pub data HasTypes : List (String × FieldType) → Fields → Type 0 where
    no_more : HasTypes [] end
    also :
        {name : String} {type : FieldType} {types : List (String × FieldType)} {v : Json}
        {fs : Fields}
        → HasType type v
        → HasTypes types fs
        → HasTypes ((name, type) ∷ types) (field name v fs)

  abbrev check : FieldType
  check = word ("passed" ∷ "failed" ∷ "not_evaluated" ∷ [])

  abbrev outcome : FieldType
  outcome = word (
      "rate_limited" ∷ "policy_denied" ∷ "schema_rejected" ∷ "concurrency_rejected"
      ∷ "upstream_success" ∷ "upstream_error" ∷ "upstream_timeout" ∷ "cancelled" ∷ "internal_error"
      ∷ [])

  abbrev category : FieldType
  category = word ("success" ∷ "error" ∷ "timeout" ∷ "cancelled" ∷ [])

  abbrev pub audit_schema : RedactionMode → List (String × FieldType)
  audit_schema mode =
      ("correlation_id", text)
      ∷ ("principal", text)
      ∷ ("session_id", nullable text)
      ∷ ("tool_name", text)
      ∷ ("arguments", shown_as mode)
      ∷ ("outcome", outcome)
      ∷ ("matched_rule", nullable text)
      ∷ ("schema_result", check)
      ∷ ("policy_result", check)
      ∷ ("rate_limit_result", word ("passed" ∷ "failed" ∷ []))
      ∷ ("concurrency_result", check)
      ∷ ("upstream_attempted", flag)
      ∷ ("upstream_result_category", nullable category)
      ∷ ("policy_latency_ms", nullable number)
      ∷ ("upstream_latency_ms", nullable number)
      ∷ ("total_latency_ms", number)
      ∷ ("timestamp", text)
      ∷ []

  abbrev pub Conforms : RedactionMode → Json → Type 0
  Conforms mode (obj fs) = HasTypes (audit_schema mode) fs
  Conforms mode _ = ⊥

  check-HasType : (c : CheckResult) → HasType check (str (check_text c))
  unfolding HasType
  check-HasType passed = inl refl
  check-HasType failed = inr (inl refl)
  check-HasType not_evaluated = inr (inr (inl refl))

  -- A type is also that of the value where `null` is allowed.
  or_else-HasType : (type : FieldType) (v : Json) → HasType type v → HasType (nullable type) v
  unfolding HasType
  or_else-HasType type null h = tt
  or_else-HasType type (bool b) h = h
  or_else-HasType type (int n) h = h
  or_else-HasType type (float x) h = h
  or_else-HasType type (str s) h = h
  or_else-HasType type (arr vs) h = h
  or_else-HasType type (obj fs) h = h

  nullable-HasType :
      {A : Type 0} (type : FieldType) (f : A → Json) (o : Option A)
      → ((a : A) → HasType type (f a))
      → HasType (nullable type) (or_null f o)
  unfolding HasType
  nullable-HasType type f none h = tt
  nullable-HasType type f (some a) h = or_else-HasType type (f a) (h a)

  arguments-HasType :
      (mode : RedactionMode) (fs : Fields)
      → HasType (shown_as mode) (represent_arguments sensitive fs mode)
  unfolding HasType
  arguments-HasType mode fs = represent_arguments-IsShownAs sensitive mode fs

  outcome-HasType : (o : AuditOutcome) → HasType outcome (str (value_of o))
  unfolding HasType
  outcome-HasType rate_limited = inl refl
  outcome-HasType policy_denied = inr (inl refl)
  outcome-HasType schema_rejected = inr (inr (inl refl))
  outcome-HasType concurrency_rejected = inr (inr (inr (inl refl)))
  outcome-HasType upstream_success = inr (inr (inr (inr (inl refl))))
  outcome-HasType upstream_error = inr (inr (inr (inr (inr (inl refl)))))
  outcome-HasType upstream_timeout = inr (inr (inr (inr (inr (inr (inl refl))))))
  outcome-HasType cancelled = inr (inr (inr (inr (inr (inr (inr (inl refl)))))))
  outcome-HasType internal_error = inr (inr (inr (inr (inr (inr (inr (inr (inl refl))))))))

  category-HasType : (c : Category) → HasType category (str (category_text c))
  unfolding HasType
  category-HasType success = inl refl
  category-HasType error = inr (inl refl)
  category-HasType timeout = inr (inr (inl refl))
  category-HasType stopped = inr (inr (inr (inl refl)))

  text-HasType : (s : String) → HasType text (str s)
  unfolding HasType
  text-HasType s = tt

  number-HasType : (x : Float) → HasType number (float x)
  unfolding HasType
  number-HasType x = tt

  flag-HasType : (b : Bool) → HasType flag (bool b)
  unfolding HasType
  flag-HasType b = tt

  verdict-HasType :
      (c : CheckResult)
      → (c ≡ passed) ⊎ (c ≡ failed)
      → HasType (word ("passed" ∷ "failed" ∷ [])) (str (check_text c))
  unfolding HasType
  verdict-HasType passed h = inl refl
  verdict-HasType failed h = inr (inl refl)
  verdict-HasType not_evaluated h = ground arith

  -- What is written of a record, whose rate limit was passed or failed, conforms to the schema of the
  -- mode: the seventeen fields in their order and no other, each of its type; and the arguments are
  -- `null` in the mode `none`, have only names and lengths in `keys_only`, the placeholder under every
  -- sensitive name at any depth in `redacted`, and are an object in `full`.
  pub payload-Conforms :
      (mode : RedactionMode) (r : AuditRecord)
      → (r.rate_limit_result ≡ passed) ⊎ (r.rate_limit_result ≡ failed)
      → Conforms mode (payload sensitive mode r)
  unfolding payload
  payload-Conforms mode r decided = also (text-HasType r.correlation_id) (
      also (text-HasType r.principal) (
        also (nullable-HasType text str r.session_id text-HasType) (
          also (text-HasType r.tool_name) (
            also (arguments-HasType mode r.arguments) (
              also (outcome-HasType r.outcome) (
                also (nullable-HasType text str r.matched_rule text-HasType) (
                  also (check-HasType r.schema_result) (
                    also (check-HasType r.policy_result) (
                      also (verdict-HasType r.rate_limit_result decided) (
                        also (check-HasType r.concurrency_result) (
                          also (flag-HasType r.upstream_attempted) (
                            also
                              (nullable-HasType category (λ c. str (category_text c))
                                r.upstream_result_category category-HasType)
                              (also
                                (nullable-HasType number float r.policy_latency_ms number-HasType)
                                (also
                                  (nullable-HasType number float r.upstream_latency_ms
                                    number-HasType)
                                  (also (number-HasType r.total_latency_ms)
                                    (also (text-HasType r.timestamp) (no_more)))))))))))))))))
