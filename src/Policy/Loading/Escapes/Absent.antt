-- ===== src/Policy/Loading/Escapes/Absent.antt =====
-- A value that validates lets no exception out of `model_validate` of sentinelmcp/policy/models.py.
use sentinel_mcp.Prelude.{
  ◌≡◌, refl, Option, none, some, String, Bool, true, false, if◌then◌else◌, [],
}
use sentinel_mcp.Prelude.Dict.{Dict}
use sentinel_mcp.Json.{Json, null, bool, int, float, str, arr, obj, Fields, end, field}
use sentinel_mcp.Exec.{Exn}
use sentinel_mcp.Policy.Models.{ArgumentConstraint, ToolPolicy, PrincipalPolicy, PolicyConfig}
use sentinel_mcp.Policy.Engine.{◌>>=◌}
use sentinel_mcp.Policy.Engine.Authorization.{bind-eq-some}
use sentinel_mcp.Policy.Loading.{
  Compilation, compiled, re_error, escapes, is_compiled, Conversions, given, or_default, needed,
  nullable, to_list, to_effect, in_key, dict_of, to_dict, pattern_must_compile, to_pattern,
  constraint_from, to_constraint, tool_from, to_tool, principal_from, to_principal, config_from,
  model_validate,
}
use sentinel_mcp.Policy.Loading.Escapes.{
  escape_of, in_given, in_field, first_of, in_dict, converted_escape, pattern_escape,
  constraint_escape, tool_escape, principal_escape, model_validate_escape,
}

if_some {ℓ} :
    {A : Type ℓ} (b : Bool) (o : Option A) {a : A} → (if b then o else none) ≡ some a → o ≡ some a
if_some true o e = e
if_some false o e = cc

module _ {A : Type 0} (f : Json → Option Exn) (convert : Json → Option A)
    (silent : (v : Json) (a : A) → convert v ≡ some a → f v ≡ none) where
  or_default-silent :
      (d a : A) (o : Option Json) → or_default d convert o ≡ some a → in_given f o ≡ none
  or_default-silent d a none e = refl
  or_default-silent d a (some v) e = silent v a e

  needed-silent : (a : A) (o : Option Json) → needed convert o ≡ some a → in_given f o ≡ none
  needed-silent a none e = refl
  needed-silent a (some v) e = silent v a e

  dict_of-silent : (fs : Fields) (d : Dict A) → dict_of convert fs ≡ some d → first_of f fs ≡ none
  dict_of-silent end d e = refl
  dict_of-silent (field k v fs) d e =
      let (a, one, e₁) = bind-eq-some (convert v) _ e in
      let (rest, more, e₂) = bind-eq-some (dict_of convert fs) _ e₁ in
      rw (silent v a one) (dict_of-silent fs rest more)

  to_dict-silent : (v : Json) (d : Dict A) → to_dict convert v ≡ some d → in_dict f v ≡ none
  to_dict-silent (obj fs) d e = dict_of-silent fs d e
  to_dict-silent null d e = refl
  to_dict-silent (bool b) d e = refl
  to_dict-silent (int n) d e = refl
  to_dict-silent (float x) d e = refl
  to_dict-silent (str s) d e = refl
  to_dict-silent (arr vs) d e = refl

-- A model's fields, from its keys on.
in_field-silent {ℓ} :
    {A : Type ℓ} (key : String) (f : Json → Option Exn) (keys : Fields → Bool)
    (from : Fields → Option A) (model : Json → Option A)
    → ((fs : Fields) (a : A) → from fs ≡ some a → in_given f (given key fs) ≡ none)
    → ((fs : Fields) → model (obj fs) ≡ (if keys fs then from fs else none))
    → (v : Json) (a : A) → model v ≡ some a
    → in_field key f v ≡ none
in_field-silent key f keys from model silent shape (obj fs) a e =
    silent fs a (if_some (keys fs) (from fs) (rw (shape fs) at e))
in_field-silent key f keys from model silent shape null a e = refl
in_field-silent key f keys from model silent shape (bool b) a e = refl
in_field-silent key f keys from model silent shape (int n) a e = refl
in_field-silent key f keys from model silent shape (float x) a e = refl
in_field-silent key f keys from model silent shape (str s) a e = refl
in_field-silent key f keys from model silent shape (arr vs) a e = refl

compile-silent :
    (k : Compilation) (p : String) (o : Option String)
    → (if is_compiled k then some (some p) else none) ≡ some o
    → escape_of k ≡ none
compile-silent compiled p o e = refl
compile-silent re_error p o e = refl
compile-silent (escapes x) p o e = cc

module _ (c : Conversions) where
  converted-silent :
      (found : Option (Option String)) (o : Option String)
      → (found >>= pattern_must_compile c) ≡ some o
      → converted_escape c found ≡ none
  converted-silent none o e = refl
  converted-silent (some none) o e = refl
  converted-silent (some (some p)) o e = compile-silent (c.compile p) p o e

  pattern-silent :
      (v : Json) (o : Option String) → to_pattern c v ≡ some o → pattern_escape c v ≡ none
  unfolding pattern_escape
  pattern-silent v o e = converted-silent (nullable c.to_str v) o e

  constraint_from-silent :
      (fs : Fields) (k : ArgumentConstraint)
      → constraint_from c fs ≡ some k
      → in_given (pattern_escape c) (given "pattern" fs) ≡ none
  unfolding constraint_from
  constraint_from-silent fs k e =
      let (_, _, e₁) = bind-eq-some (or_default null some (given "equals" fs)) _ e in
      let (_, _, e₂) =
        bind-eq-some (or_default none (nullable (to_list some)) (given (in_key fs) fs)) _ e₁ in
      let (_, _, e₃) = bind-eq-some (or_default none (nullable c.to_float) (given "min" fs)) _ e₂ in
      let (_, _, e₄) = bind-eq-some (or_default none (nullable c.to_float) (given "max" fs)) _ e₃ in
      let (_, _, e₅) =
        bind-eq-some (or_default none (nullable c.to_int) (given "min_length" fs)) _ e₄ in
      let (_, _, e₆) =
        bind-eq-some (or_default none (nullable c.to_int) (given "max_length" fs)) _ e₅ in
      let (_, _, e₇) =
        bind-eq-some (or_default none (nullable c.to_int) (given "min_items" fs)) _ e₆ in
      let (_, _, e₈) =
        bind-eq-some (or_default none (nullable c.to_int) (given "max_items" fs)) _ e₇ in
      let (o, taken, e₉) =
        bind-eq-some (or_default none (to_pattern c) (given "pattern" fs)) _ e₈ in
      or_default-silent (pattern_escape c) (to_pattern c) pattern-silent none o _ taken

  constraint-silent :
      (v : Json) (k : ArgumentConstraint)
      → to_constraint c v ≡ some k
      → constraint_escape c v ≡ none
  unfolding constraint_escape to_constraint
  constraint-silent =
      in_field-silent "pattern" (pattern_escape c) _ (constraint_from c) (to_constraint c)
        constraint_from-silent (λ fs. refl)

  tool_from-silent :
      (fs : Fields) (t : ToolPolicy)
      → tool_from c fs ≡ some t
      → in_given (in_dict (constraint_escape c)) (given "arguments" fs) ≡ none
  unfolding tool_from
  tool_from-silent fs t e =
      let (_, _, e₁) = bind-eq-some (needed to_effect (given "effect" fs)) _ e in
      let (_, _, e₂) = bind-eq-some (or_default [] (to_list c.to_str) (given "required" fs)) _ e₁ in
      let (_, _, e₃) =
        bind-eq-some (or_default [] (to_list c.to_str) (given "forbidden" fs)) _ e₂ in
      let (_, _, e₄) =
        bind-eq-some (or_default true c.to_bool (given "deny_unknown_arguments" fs)) _ e₃ in
      let (d, taken, e₅) =
        bind-eq-some (or_default [] (to_dict (to_constraint c)) (given "arguments" fs)) _ e₄ in
      or_default-silent (in_dict (constraint_escape c)) (to_dict (to_constraint c))
        (to_dict-silent (constraint_escape c) (to_constraint c) constraint-silent) [] d _ taken

  tool-silent : (v : Json) (t : ToolPolicy) → to_tool c v ≡ some t → tool_escape c v ≡ none
  unfolding tool_escape to_tool
  tool-silent =
      in_field-silent "arguments" (in_dict (constraint_escape c)) _ (tool_from c) (to_tool c)
        tool_from-silent (λ fs. refl)

  principal_from-silent :
      (fs : Fields) (p : PrincipalPolicy)
      → principal_from c fs ≡ some p
      → in_given (in_dict (tool_escape c)) (given "tools" fs) ≡ none
  unfolding principal_from
  principal_from-silent fs p e =
      let (_, _, e₁) = bind-eq-some (needed c.to_str (given "api_key_env" fs)) _ e in
      let (d, taken, e₂) =
        bind-eq-some (or_default [] (to_dict (to_tool c)) (given "tools" fs)) _ e₁ in
      or_default-silent (in_dict (tool_escape c)) (to_dict (to_tool c))
        (to_dict-silent (tool_escape c) (to_tool c) tool-silent) [] d _ taken

  principal-silent :
      (v : Json) (p : PrincipalPolicy) → to_principal c v ≡ some p → principal_escape c v ≡ none
  unfolding principal_escape to_principal
  principal-silent =
      in_field-silent "tools" (in_dict (tool_escape c)) _ (principal_from c) (to_principal c)
        principal_from-silent (λ fs. refl)

  config_from-silent :
      (fs : Fields) (p : PolicyConfig)
      → config_from c fs ≡ some p
      → in_given (in_dict (principal_escape c)) (given "principals" fs) ≡ none
  unfolding config_from
  config_from-silent fs p e =
      let (d, taken, e₁) =
        bind-eq-some (needed (to_dict (to_principal c)) (given "principals" fs)) _ e in
      needed-silent (in_dict (principal_escape c)) (to_dict (to_principal c))
        (to_dict-silent (principal_escape c) (to_principal c) principal-silent) d _ taken

  -- Where a value validates, every pattern in it compiled.
  pub model_validate-silent :
      (v : Json) (p : PolicyConfig) → model_validate c v ≡ some p → model_validate_escape c v ≡ none
  unfolding model_validate_escape model_validate
  model_validate-silent =
      in_field-silent "principals" (in_dict (principal_escape c)) _ (config_from c)
        (model_validate c) config_from-silent (λ fs. refl)
