-- ===== src/Policy/Loading/Escapes/Raising.antt =====
-- The patterns of a policy file for which `re.compile` raises what `_pattern_must_compile` of
-- sentinelmcp/policy/models.py does not catch: where they stand in the file, without the validation.
use sentinel_mcp.Prelude.{◌≡◌, ◌↔◌, refl, inl, inr, Option, Option-cases, none, some, String}
use mathlib.Core.Option.{some-injective}
use sentinel_mcp.Json.{Json, null, bool, int, float, str, arr, obj, Fields, end, field}
use sentinel_mcp.Exec.{Exn}
use sentinel_mcp.Policy.Loading.{
  Compilation, compiled, re_error, escapes, Conversions, given, nullable,
}
use sentinel_mcp.Policy.Loading.Escapes.{
  escape_of, in_given, in_field, first_of, in_dict, converted_escape, pattern_escape,
  constraint_escape, tool_escape, principal_escape, model_validate_escape,
}

-- The value is an object whose field of that name raises so.
abbrev pub FieldRaises : String → (Json → Exn → Type 0) → Json → Exn → Type 0
FieldRaises key P raw e =
    (fs : Fields) × (v : Json) × (raw ≡ obj fs) × (given key fs ≡ some v) × P v e

-- The first entry that raises, raises so.
pub data FirstRaises (P : Json → Exn → Type 0) : Fields → Exn → Type 0 where
  now : (k : String) (v : Json) (fs : Fields) (e : Exn) → P v e → FirstRaises P (field k v fs) e
  later :
      (k : String) (v : Json) (fs : Fields) (e : Exn)
      → ((x : Exn) → ¬ P v x)
      → FirstRaises P fs e
      → FirstRaises P (field k v fs) e

-- The value is an object, and so its first entry that raises.
abbrev pub EntryRaises : (Json → Exn → Type 0) → Json → Exn → Type 0
EntryRaises P raw e = (fs : Fields) × (raw ≡ obj fs) × FirstRaises P fs e

module _ (f : Json → Option Exn) (P : Json → Exn → Type 0)
    (agree : (v : Json) (e : Exn) → (f v ≡ some e) ↔ P v e) where
  given-raises :
      (o : Option Json) (e : Exn) → in_given f o ≡ some e → (v : Json) × (o ≡ some v) × P v e
  given-raises none e h = cc
  given-raises (some v) e h = (v, refl, (agree v e).0 h)

  field-raises :
      (key : String) (raw : Json) (e : Exn) → in_field key f raw ≡ some e → FieldRaises key P raw e
  field-raises key (obj fs) e h =
      let (v, had, raises) = given-raises (given key fs) e h in (fs, v, refl, had, raises)
  field-raises key null e h = cc
  field-raises key (bool b) e h = cc
  field-raises key (int n) e h = cc
  field-raises key (float x) e h = cc
  field-raises key (str s) e h = cc
  field-raises key (arr vs) e h = cc

  in_field_iff :
      (key : String) (raw : Json) (e : Exn)
      → (in_field key f raw ≡ some e) ↔ FieldRaises key P raw e
  in_field_iff key raw e =
      (field-raises key raw e, λ (fs, v, same, had, raises). rw (same, had) ((agree v e).1 raises))

  first-raises : (fs : Fields) (e : Exn) → first_of f fs ≡ some e → FirstRaises P fs e
  first-raises end e h = cc
  first-raises (field k v fs) e h = elim (Option-cases (f v)) [
    | inl silent ↦
        later k v fs e (λ x raises. cc (silent, (agree v x).1 raises))
          (first-raises fs e (rw silent at h))
    | inr (x, raised) ↦ now k v fs e ((agree v e).0 (cc (raised, rw raised at h)))
  ]

  silent-of : (v : Json) → ((x : Exn) → ¬ P v x) → f v ≡ none
  silent-of v quiet = elim (Option-cases (f v)) [
    | inl silent ↦ silent
    | inr (x, raised) ↦ absurd (quiet x ((agree v x).0 raised))
  ]

  first-of : {fs : Fields} {e : Exn} → FirstRaises P fs e → first_of f fs ≡ some e
  first-of (now k v fs e raises) = rw ((agree v e).1 raises) refl
  first-of (later k v fs e quiet more) = rw (silent-of v quiet) (first-of more)

  entry-raises : (raw : Json) (e : Exn) → in_dict f raw ≡ some e → EntryRaises P raw e
  entry-raises (obj fs) e h = (fs, refl, first-raises fs e h)
  entry-raises null e h = cc
  entry-raises (bool b) e h = cc
  entry-raises (int n) e h = cc
  entry-raises (float x) e h = cc
  entry-raises (str s) e h = cc
  entry-raises (arr vs) e h = cc

  in_dict_iff : (raw : Json) (e : Exn) → (in_dict f raw ≡ some e) ↔ EntryRaises P raw e
  in_dict_iff raw e = (entry-raises raw e, λ (fs, same, first). rw same (first-of first))

module _ (c : Conversions) where
  -- The value is taken for a text, and `re.compile` raises so for it.
  abbrev pub PatternRaises : Json → Exn → Type 0
  PatternRaises v e =
      (p : String) × (nullable c.to_str v ≡ some (some p)) × (c.compile p ≡ escapes e)

  -- Of the constraints' patterns under `principals`, `tools` and `arguments`, in the order of the file, the
  -- first that raises, raises so.
  abbrev pub PolicyRaises : Json → Exn → Type 0
  PolicyRaises = FieldRaises "principals" (
      EntryRaises (
        FieldRaises "tools" (
          EntryRaises
            (FieldRaises "arguments" (EntryRaises (FieldRaises "pattern" PatternRaises))))))

  compilation-raises : (k : Compilation) (e : Exn) → escape_of k ≡ some e → k ≡ escapes e
  compilation-raises compiled e h = cc
  compilation-raises re_error e h = cc
  compilation-raises (escapes x) e h = rw (some-injective x e h) refl

  converted-raises :
      (found : Option (Option String)) (e : Exn)
      → converted_escape c found ≡ some e
      → (p : String) × (found ≡ some (some p)) × (c.compile p ≡ escapes e)
  converted-raises none e h = cc
  converted-raises (some none) e h = cc
  converted-raises (some (some p)) e h = (p, refl, compilation-raises (c.compile p) e h)

  pattern_escape_iff : (v : Json) (e : Exn) → (pattern_escape c v ≡ some e) ↔ PatternRaises v e
  unfolding pattern_escape
  pattern_escape_iff v e =
      (converted-raises (nullable c.to_str v) e, λ (p, text, raised). rw (text, raised) refl)

  -- What comes out of the validation beside a ValidationError is what the first such pattern raises.
  pub model_validate_escape_iff :
      (raw : Json) (e : Exn) → (model_validate_escape c raw ≡ some e) ↔ PolicyRaises raw e
  unfolding model_validate_escape principal_escape tool_escape constraint_escape
  model_validate_escape_iff =
      in_field_iff _ _
        (in_dict_iff _ _ (
          in_field_iff _ _
            (in_dict_iff _ _ (
              in_field_iff _ _ (in_dict_iff _ _ (in_field_iff _ _ pattern_escape_iff "pattern"))
                "arguments"))
            "tools"))
        "principals"
