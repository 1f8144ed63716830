-- ===== src/Audit/Redaction/Leaks.antt =====
-- About `_redact` of sentinelmcp/telemetry/audit.py: what a redacted value can tell.
use sentinel_mcp.Prelude.{◌≡◌, refl, ap, Bool, true, false, String, arith, eq_iff, if◌then◌else◌}
use mathlib.Core.Path.{ap₂}
use mathlib.Core.Option
use sentinel_mcp.Prelude.Dict.{get}
use sentinel_mcp.Json.{Json, arr, obj, Items, nil, item, Fields, end, field, fields}
use sentinel_mcp.Audit.Redaction.{
  redacted, redacted_placeholder, redact, redact_items, redact_fields, represent_arguments,
}

module _ (sensitive : String → Bool) where
  -- Two values that agree but for the values under sensitive names.
  mutual
    pub data SameButSecrets : Json → Json → Type 0 where
      same : {v : Json} → SameButSecrets v v
      lists : {vs ws : Items} → SameItems vs ws → SameButSecrets (arr vs) (arr ws)
      objects : {fs gs : Fields} → SameFields fs gs → SameButSecrets (obj fs) (obj gs)

    pub data SameItems : Items → Items → Type 0 where
      no_items : SameItems nil nil
      items_too :
          {v w : Json} {vs ws : Items}
          → SameButSecrets v w
          → SameItems vs ws
          → SameItems (item v vs) (item w ws)

    pub data SameFields : Fields → Fields → Type 0 where
      no_fields : SameFields end end
      secret :
          {k : String} {v w : Json} {fs gs : Fields}
          → sensitive k ≡ true
          → SameFields fs gs
          → SameFields (field k v fs) (field k w gs)
      open_field :
          {k : String} {v w : Json} {fs gs : Fields}
          → SameButSecrets v w
          → SameFields fs gs
          → SameFields (field k v fs) (field k w gs)

  mutual
    unfolding redact

    redact-same : {v w : Json} → SameButSecrets v w → redact sensitive v ≡ redact sensitive w
    redact-same same = refl
    redact-same (lists h) = ap arr (redact_items-same h)
    redact-same (objects h) = ap obj (redact_fields-same h)

    redact_items-same :
        {vs ws : Items} → SameItems vs ws → redact_items sensitive vs ≡ redact_items sensitive ws
    redact_items-same no_items = refl
    redact_items-same (items_too h hs) = ap₂ item (redact-same h) (redact_items-same hs)

    redact_fields-same :
        {fs gs : Fields}
        → SameFields fs gs
        → redact_fields sensitive fs ≡ redact_fields sensitive gs
    redact_fields-same no_fields = refl
    redact_fields-same (secret {k} s hs) =
        rw s (ap (field k redacted_placeholder) (redact_fields-same hs))
    redact_fields-same (open_field {k} h hs) =
        ap₂
          (λ (v : Json) (fs : Fields). field k (if sensitive k then redacted_placeholder else v) fs)
          (redact-same h) (redact_fields-same hs)

  -- A redacted representation is the same whatever stands under the sensitive names, at any depth.
  pub represent_arguments-redacted :
      (fs gs : Fields)
      → SameFields fs gs
      → represent_arguments sensitive fs redacted ≡ represent_arguments sensitive gs redacted
  unfolding represent_arguments
  represent_arguments-redacted fs gs h = ap obj (redact_fields-same h)

  -- A value in which no name is sensitive.
  unfoldable mutual
    pub IsOpen : Json → Type 0
    IsOpen (arr vs) = AreOpen vs
    IsOpen (obj fs) = HasOpenFields fs
    IsOpen _ = Unit

    pub AreOpen : Items → Type 0
    AreOpen nil = Unit
    AreOpen (item v vs) = IsOpen v × AreOpen vs

    pub HasOpenFields : Fields → Type 0
    HasOpenFields end = Unit
    HasOpenFields (field k v fs) = (sensitive k ≡ false) × IsOpen v × HasOpenFields fs

  mutual
    unfolding redact IsOpen

    redact-open : (v : Json) → IsOpen v → redact sensitive v ≡ v
    redact-open (arr vs) h = ap arr (redact_items-open vs h)
    redact-open (obj fs) h = ap obj (redact_fields-open fs h)
    redact-open _ h = refl

    redact_items-open : (vs : Items) → AreOpen vs → redact_items sensitive vs ≡ vs
    redact_items-open nil h = refl
    redact_items-open (item v vs) h = ap₂ item (redact-open v h.0) (redact_items-open vs h.1)

    redact_fields-open : (fs : Fields) → HasOpenFields fs → redact_fields sensitive fs ≡ fs
    redact_fields-open end h = refl
    redact_fields-open (field k v fs) h =
        rw h.0 (ap₂ (field k) (redact-open v h.1) (redact_fields-open fs h.2))

  -- Arguments without a sensitive name are written unchanged.
  represent_arguments-open :
      (fs : Fields) → HasOpenFields fs → represent_arguments sensitive fs redacted ≡ obj fs
  unfolding represent_arguments
  represent_arguments-open fs h = ap obj (redact_fields-open fs h)

  get-redact_fields :
      (fs : Fields) (k : String)
      → get k (fields (redact_fields sensitive fs))
        ≡ Option.map
            (λ v. if sensitive k then redacted_placeholder else redact sensitive v)
            (get k (fields fs))
  unfolding get redact
  get-redact_fields end k = refl
  get-redact_fields (field j v fs) k = ground (arith, eq_iff j k, get-redact_fields fs k)
