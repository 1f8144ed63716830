-- ===== src/Policy/Loading/Strict.antt =====
-- What the files look like that the model classes of sentinelmcp/policy/models.py accept.
use sentinel_mcp.Prelude.{
  ◌≡◌, ◌⊎◌, refl, ap, ◌∙◌, inl, inr, Bool, true, false, Option, none, some, List, String, arith,
  elem_iff, IsIn, eq_iff, [], &&_iff, if◌then◌else◌,
}
use sentinel_mcp.Prelude.Dict.{Dict}
use sentinel_mcp.Json.{Json, null, bool, int, float, str, arr, obj, Fields, end, field}
use sentinel_mcp.Policy.Engine.{◌>>=◌}
use sentinel_mcp.Policy.Models.{
  ArgumentConstraint, Effect, ToolPolicy, PrincipalPolicy, PolicyConfig,
}
use sentinel_mcp.Policy.Loading.{
  Conversions, given, only, or_default, needed, dict_of, to_list, to_dict, in_key, operator_keys,
  seconds, to_effect, constraint_from, to_constraint, tool_from, tool_keys, to_tool, principal_from,
  principal_keys, to_principal, config_from, config_keys, model_validate,
}

-- Every key is one of the names.
abbrev pub HasOnly : List String → Fields → Type 0
HasOnly names end = Unit
HasOnly names (field k v fs) = IsIn k names × HasOnly names fs

only-HasOnly : (names : List String) (fs : Fields) → only names fs ≡ true → HasOnly names fs
only-HasOnly names end h = tt
only-HasOnly names (field k v fs) h =
    let (known, rest) = (&&_iff _ _).0 h in ((elem_iff k names).0 known, only-HasOnly names fs rest)

abbrev pub EachOf : (Json → Type 0) → Fields → Type 0
EachOf P end = Unit
EachOf P (field k v fs) = P v × EachOf P fs

-- An object, of which every value is so.
abbrev pub Each : (Json → Type 0) → Json → Type 0
Each P (obj fs) = EachOf P fs
Each P _ = ⊥

-- An object, of whose entries this holds.
abbrev pub Object : (Fields → Type 0) → Json → Type 0
Object P (obj fs) = P fs
Object P _ = ⊥

abbrev pub IsConstraint : Json → Type 0
IsConstraint = Object (λ fs. HasOnly (seconds (operator_keys (in_key fs))) fs)

abbrev pub IsTool : Json → Type 0
IsTool = Object (λ fs.
    HasOnly tool_keys fs
    × ((given "effect" fs ≡ some (str "allow")) ⊎ (given "effect" fs ≡ some (str "deny")))
    × ((v : Json) → given "arguments" fs ≡ some v → Each IsConstraint v))

abbrev pub IsPrincipal : Json → Type 0
IsPrincipal =
    Object
      (λ fs. HasOnly principal_keys fs × ((v : Json) → given "tools" fs ≡ some v → Each IsTool v))

abbrev pub IsConfig : Json → Type 0
IsConfig = Object (λ fs.
    HasOnly config_keys fs × ((v : Json) × (given "principals" fs ≡ some v) × Each IsPrincipal v))

bind-some :
    {A B : Type 0} (o : Option A) (k : A → Option B) (b : B)
    → (o >>= k) ≡ some b
    → (a : A) × (o ≡ some a) × (k a ≡ some b)
bind-some none k b h = ground arith
bind-some (some a) k b h = (a, refl, h)

dict_of-Each :
    {A : Type 0} (convert : Json → Option A) (P : Json → Type 0)
    → ((v : Json) (a : A) → convert v ≡ some a → P v)
    → (fs : Fields) (d : Dict A) → dict_of convert fs ≡ some d
    → EachOf P fs
dict_of-Each convert P each end d h = tt
dict_of-Each convert P each (field k v fs) d h =
    let (a, here, h') = bind-some (convert v) _ d h in
    let (rest, later, h'') = bind-some (dict_of convert fs) _ d h' in
    (each v a here, dict_of-Each convert P each fs rest later)

to_dict-Each :
    {A : Type 0} (convert : Json → Option A) (P : Json → Type 0)
    → ((v : Json) (a : A) → convert v ≡ some a → P v)
    → (v : Json) (d : Dict A) → to_dict convert v ≡ some d
    → Each P v
to_dict-Each convert P each (obj fs) d h = dict_of-Each convert P each fs d h
to_dict-Each convert P each null d h = ground arith
to_dict-Each convert P each (bool b) d h = ground arith
to_dict-Each convert P each (int n) d h = ground arith
to_dict-Each convert P each (float x) d h = ground arith
to_dict-Each convert P each (str s) d h = ground arith
to_dict-Each convert P each (arr vs) d h = ground arith

needed-given :
    {A : Type 0} (convert : Json → Option A) (o : Option Json) (a : A)
    → needed convert o ≡ some a
    → (v : Json) × (o ≡ some v) × (convert v ≡ some a)
needed-given convert none a h = ground arith
needed-given convert (some v) a h = (v, refl, h)

or_default-given :
    {A : Type 0} (d : A) (convert : Json → Option A) (o : Option Json) (a : A) (v : Json)
    → or_default d convert o ≡ some a
    → o ≡ some v
    → convert v ≡ some a
or_default-given d convert o a v h e = rw e at h

to_effect-named :
    (v : Json) (e : Effect) → to_effect v ≡ some e → (v ≡ str "allow") ⊎ (v ≡ str "deny")
to_effect-named (str s) e h = ground (arith, eq_iff s "allow", eq_iff s "deny")
to_effect-named null e h = ground arith
to_effect-named (bool b) e h = ground arith
to_effect-named (int n) e h = ground arith
to_effect-named (float x) e h = ground arith
to_effect-named (arr vs) e h = ground arith
to_effect-named (obj fs) e h = ground arith

-- A guarded conversion succeeds only when its guard holds.
guard-some :
    {A : Type 0} (b : Bool) (o : Option A) (a : A)
    → (if b then o else none) ≡ some a
    → (b ≡ true) × (o ≡ some a)
guard-some true o a h = (refl, h)
guard-some false o a h = ground arith

module _ (c : Conversions) where
  to_constraint-IsConstraint :
      (v : Json) (a : ArgumentConstraint) → to_constraint c v ≡ some a → IsConstraint v
  unfolding to_constraint
  to_constraint-IsConstraint (obj fs) a h =
      only-HasOnly (seconds (operator_keys (in_key fs))) fs
        (guard-some (only (seconds (operator_keys (in_key fs))) fs) (constraint_from c fs) a h).0
  to_constraint-IsConstraint null a h = ground arith
  to_constraint-IsConstraint (bool b) a h = ground arith
  to_constraint-IsConstraint (int n) a h = ground arith
  to_constraint-IsConstraint (float x) a h = ground arith
  to_constraint-IsConstraint (str s) a h = ground arith
  to_constraint-IsConstraint (arr vs) a h = ground arith

  to_tool-IsTool : (v : Json) (a : ToolPolicy) → to_tool c v ≡ some a → IsTool v
  unfolding to_tool tool_from
  to_tool-IsTool (obj fs) a h =
      let (known, h1) = guard-some (only tool_keys fs) _ a h in
      let (effect, effective, h2) = bind-some (needed to_effect (given "effect" fs)) _ a h1 in
      let (e, named, converted) = needed-given to_effect _ effect effective in
      let (required, r, h3) =
        bind-some (or_default [] (to_list c.to_str) (given "required" fs)) _ a h2 in
      let (forbidden, f, h4) =
        bind-some (or_default [] (to_list c.to_str) (given "forbidden" fs)) _ a h3 in
      let (deny_unknown, d, h5) =
        bind-some (or_default true c.to_bool (given "deny_unknown_arguments" fs)) _ a h4 in
      let (arguments, args, h6) =
        bind-some (or_default [] (to_dict (to_constraint c)) (given "arguments" fs)) _ a h5 in
      (
        only-HasOnly tool_keys fs known,
        elim (to_effect-named e effect converted) [
          | inl lets ↦ inl (named ∙ ap some lets)
          | inr bars ↦ inr (named ∙ ap some bars)
        ],
        λ v at_arguments.
            to_dict-Each (to_constraint c) IsConstraint to_constraint-IsConstraint v arguments
              (or_default-given [] (to_dict (to_constraint c)) _ arguments v args at_arguments),
      )
  to_tool-IsTool null a h = ground arith
  to_tool-IsTool (bool b) a h = ground arith
  to_tool-IsTool (int n) a h = ground arith
  to_tool-IsTool (float x) a h = ground arith
  to_tool-IsTool (str s) a h = ground arith
  to_tool-IsTool (arr vs) a h = ground arith

  to_principal-IsPrincipal :
      (v : Json) (a : PrincipalPolicy) → to_principal c v ≡ some a → IsPrincipal v
  unfolding to_principal principal_from
  to_principal-IsPrincipal (obj fs) a h =
      let (known, h1) = guard-some (only principal_keys fs) _ a h in
      let (env, key, h2) = bind-some (needed c.to_str (given "api_key_env" fs)) _ a h1 in
      let (tools, ts, h3) =
        bind-some (or_default [] (to_dict (to_tool c)) (given "tools" fs)) _ a h2 in
      (
        only-HasOnly principal_keys fs known,
        λ v at_tools.
            to_dict-Each (to_tool c) IsTool to_tool-IsTool v tools
              (or_default-given [] (to_dict (to_tool c)) _ tools v ts at_tools),
      )
  to_principal-IsPrincipal null a h = ground arith
  to_principal-IsPrincipal (bool b) a h = ground arith
  to_principal-IsPrincipal (int n) a h = ground arith
  to_principal-IsPrincipal (float x) a h = ground arith
  to_principal-IsPrincipal (str s) a h = ground arith
  to_principal-IsPrincipal (arr vs) a h = ground arith

  -- Whatever file is accepted has no field that the classes do not name, at any level: in the
  -- configuration, in each principal, in each of its tools and in each constraint of a tool's
  -- arguments; it gives the principals, and each tool's effect is `allow` or `deny`.
  pub model_validate-IsConfig :
      (raw : Json) (policy : PolicyConfig) → model_validate c raw ≡ some policy → IsConfig raw
  unfolding model_validate config_from
  model_validate-IsConfig (obj fs) a h =
      let (known, h1) = guard-some (only config_keys fs) _ a h in
      let (principals, ps, h2) =
        bind-some (needed (to_dict (to_principal c)) (given "principals" fs)) _ a h1 in
      let (v, at_principals, converted) = needed-given (to_dict (to_principal c)) _ principals ps in
      (
        only-HasOnly config_keys fs known,
        (
          v,
          at_principals,
          to_dict-Each (to_principal c) IsPrincipal to_principal-IsPrincipal v principals converted,
        ),
      )
  model_validate-IsConfig null a h = ground arith
  model_validate-IsConfig (bool b) a h = ground arith
  model_validate-IsConfig (int n) a h = ground arith
  model_validate-IsConfig (float x) a h = ground arith
  model_validate-IsConfig (str s) a h = ground arith
  model_validate-IsConfig (arr vs) a h = ground arith
