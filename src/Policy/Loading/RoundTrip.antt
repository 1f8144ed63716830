-- ===== src/Policy/Loading/RoundTrip.antt =====
-- A policy written out as the value that its file holds, and read again by the model classes of
-- sentinelmcp/policy/models.py.
pub mod Constraint
use sentinel_mcp.Prelude.{◌≡◌, refl, Option, some, List, [], ◌∷◌, String, All}
use sentinel_mcp.Prelude.Dict.{Dict, get}
use sentinel_mcp.Json.{Json, bool, str, arr, obj, Fields, end, field, Items, nil, item}
use sentinel_mcp.Policy.Models.{Effect, allow, deny, ToolPolicy, PrincipalPolicy, PolicyConfig}
use sentinel_mcp.Policy.Loading.{
  Conversions, dict_of, list_of, to_effect, to_constraint, tool_from, to_tool, principal_from,
  to_principal, config_from, model_validate,
}
use sentinel_mcp.Policy.Loading.RoundTrip.Constraint.{
  IsFaithful, write_constraint, IsWritable, constraint-back,
}

abbrev write_texts : List String → Items
write_texts [] = nil
write_texts (s ∷ ss) = item (str s) (write_texts ss)

abbrev write_dict : {A : Type 0} → (A → Json) → Dict A → Fields
write_dict write [] = end
write_dict write ((k, a) ∷ d) = field k (write a) (write_dict write d)

abbrev write_effect : Effect → Json
write_effect allow = str "allow"
write_effect deny = str "deny"

abbrev write_tool : ToolPolicy → Json
write_tool t = obj (
    field "effect" (write_effect t.effect) (
      field "required" (arr (write_texts t.required)) (
        field "forbidden" (arr (write_texts t.forbidden)) (
          field "deny_unknown_arguments" (bool t.deny_unknown_arguments)
            (field "arguments" (obj (write_dict write_constraint t.arguments)) end)))))

abbrev write_principal : PrincipalPolicy → Json
write_principal p = obj (
    field "api_key_env" (str p.api_key_env)
      (field "tools" (obj (write_dict write_tool p.tools)) end))

-- The policy as its file says it.
pub write_config : PolicyConfig → Json
write_config policy =
    obj (field "principals" (obj (write_dict write_principal policy.principals)) end)

abbrev Values : {A : Type 0} → (A → Type 0) → Dict A → Type 0
Values P = All (λ (k, a). P a)

-- Every constraint of the policy is as the class makes it.
abbrev pub WritableTool : Conversions → ToolPolicy → Type 0
WritableTool c t = Values (IsWritable c) t.arguments

abbrev pub IsWritableConfig : Conversions → PolicyConfig → Type 0
IsWritableConfig c policy =
    Values (λ (p : PrincipalPolicy). Values (WritableTool c) p.tools) policy.principals

dict-back :
    {A : Type 0} (convert : Json → Option A) (write : A → Json) (P : A → Type 0)
    → ((a : A) → P a → convert (write a) ≡ some a)
    → (d : Dict A) → Values P d
    → dict_of convert (write_dict write d) ≡ some d
dict-back convert write P back [] h = refl
dict-back convert write P back ((k, a) ∷ d) (here, h) =
    rw (back a here, dict-back convert write P back d h) refl

effect-back : (e : Effect) → to_effect (write_effect e) ≡ some e
effect-back allow = refl
effect-back deny = refl

module _ (c : Conversions) (f : IsFaithful c) where
  texts-back : (ss : List String) → list_of c.to_str (write_texts ss) ≡ some ss
  texts-back [] = refl
  texts-back (s ∷ ss) = rw (f.text s, texts-back ss) refl

  tool-back : (t : ToolPolicy) → WritableTool c t → to_tool c (write_tool t) ≡ some t
  unfolding to_tool tool_from get
  tool-back t h =
      rw
        (
          effect-back t.effect,
          texts-back t.required,
          texts-back t.forbidden,
          f.truth t.deny_unknown_arguments,
          dict-back (to_constraint c) write_constraint (IsWritable c) (constraint-back c f)
              t.arguments h,
        )
        refl

  principal-back :
      (p : PrincipalPolicy)
      → Values (WritableTool c) p.tools
      → to_principal c (write_principal p) ≡ some p
  unfolding to_principal principal_from get
  principal-back p h =
      rw
        (
          f.text p.api_key_env,
          dict-back (to_tool c) write_tool (WritableTool c) tool-back p.tools h,
        )
        refl

  -- A policy whose constraints are as their class makes them is what the loader reads from the policy
  -- written out, for any conversions that keep the values that have the type already.
  pub model_validate-write_config :
      (policy : PolicyConfig)
      → IsWritableConfig c policy
      → model_validate c (write_config policy) ≡ some policy
  unfolding model_validate config_from write_config get
  model_validate-write_config policy h =
      rw
        (dict-back (to_principal c) write_principal
          (λ (p : PrincipalPolicy). Values (WritableTool c) p.tools) principal-back
          policy.principals h)
        refl
