-- ===== src/Audit/Redaction/Shapes.antt =====
-- `_keys_only` of sentinelmcp/telemetry/audit.py: what the mode `keys_only` can tell.
use mathlib.Core.Path.{ap₂}
use sentinel_mcp.Prelude.{◌≡◌, refl, ap, sym, ◌∙◌, Bool, String}
use sentinel_mcp.Json.{Json, str, arr, obj, Items, nil, item, Fields, end, field}
use sentinel_mcp.Audit.Redaction.{
  keys_only, keys_only_of, keys_only_items, keys_only_fields, represent_arguments,
}

-- A value that is neither a list nor an object.
abbrev pub IsLeaf : Json → Type 0
IsLeaf (arr vs) = ⊥
IsLeaf (obj fs) = ⊥
IsLeaf _ = Unit

-- Two values of one shape: leaves, lists of one length, or objects with the same names in the same
-- order and values of one shape under each.
mutual
  pub data SameShape : Json → Json → Type 0 where
    leaves : {v w : Json} → IsLeaf v → IsLeaf w → SameShape v w
    lists : {vs ws : Items} → SameLength vs ws → SameShape (arr vs) (arr ws)
    objects : {fs gs : Fields} → SameShapes fs gs → SameShape (obj fs) (obj gs)

  pub data SameLength : Items → Items → Type 0 where
    no_items : SameLength nil nil
    one_more : {v w : Json} {vs ws : Items} → SameLength vs ws → SameLength (item v vs) (item w ws)

  pub data SameShapes : Fields → Fields → Type 0 where
    no_fields : SameShapes end end
    one_field :
        {k : String} {v w : Json} {fs gs : Fields}
        → SameShape v w
        → SameShapes fs gs
        → SameShapes (field k v fs) (field k w gs)

keys_only-leaf : (v : Json) → IsLeaf v → keys_only_of v ≡ str "<value>"
unfolding keys_only_of
keys_only-leaf (arr vs) h = absurd h
keys_only-leaf (obj fs) h = absurd h
keys_only-leaf _ h = refl

keys_only-length : {vs ws : Items} → SameLength vs ws → keys_only_items vs ≡ keys_only_items ws
unfolding keys_only_of
keys_only-length no_items = refl
keys_only-length (one_more h) = ap (item (str "<item>")) (keys_only-length h)

mutual
  unfolding keys_only_of

  keys_only-shape : {v w : Json} → SameShape v w → keys_only_of v ≡ keys_only_of w
  keys_only-shape (leaves {v} {w} h k) = keys_only-leaf v h ∙ sym (keys_only-leaf w k)
  keys_only-shape (lists h) = ap arr (keys_only-length h)
  keys_only-shape (objects h) = ap obj (keys_only-shapes h)

  keys_only-shapes : {fs gs : Fields} → SameShapes fs gs → keys_only_fields fs ≡ keys_only_fields gs
  keys_only-shapes no_fields = refl
  keys_only-shapes (one_field {k} h hs) = ap₂ (field k) (keys_only-shape h) (keys_only-shapes hs)

-- In the mode `keys_only`, arguments of one shape have the same representation: no value is written,
-- and of a list only its length.
pub represent_arguments-keys_only :
    (sensitive : String → Bool) (fs gs : Fields)
    → SameShapes fs gs
    → represent_arguments sensitive fs keys_only ≡ represent_arguments sensitive gs keys_only
unfolding represent_arguments keys_only_of
represent_arguments-keys_only sensitive fs gs h = ap obj (keys_only-shapes h)
