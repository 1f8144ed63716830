-- ===== src/Audit/Redaction/Shown.antt =====
-- What `represent_arguments` of sentinelmcp/telemetry/audit.py shows in each redaction mode.
use sentinel_mcp.Prelude.{◌≡◌, refl, inl, inr, Bool, true, false, String, Bool-cases}
use sentinel_mcp.Json.{Json, null, str, arr, obj, Items, nil, item, Fields, end, field}
use sentinel_mcp.Audit.Redaction.{
  RedactionMode, keys_only, redacted, full, redacted_placeholder, keys_only_of, keys_only_items,
  keys_only_fields, redact, redact_items, redact_fields, represent_arguments,
}
use sentinel_mcp.Audit.Redaction

-- What `keys_only` may write: the names of an object, the lengths of its lists, and no value.
unfoldable mutual
  pub IsBare : Json → Type 0
  IsBare (obj fs) = HasBareFields fs
  IsBare (arr vs) = AreItems vs
  IsBare v = v ≡ str "<value>"

  pub AreItems : Items → Type 0
  AreItems nil = Unit
  AreItems (item v vs) = (v ≡ str "<item>") × AreItems vs

  pub HasBareFields : Fields → Type 0
  HasBareFields end = Unit
  HasBareFields (field k v fs) = IsBare v × HasBareFields fs

mutual
  unfolding keys_only_of IsBare

  keys_only-IsBare : (v : Json) → IsBare (keys_only_of v)
  keys_only-IsBare (obj fs) = keys_only-HasBareFields fs
  keys_only-IsBare (arr vs) = keys_only-AreItems vs
  keys_only-IsBare _ = refl

  keys_only-AreItems : (vs : Items) → AreItems (keys_only_items vs)
  keys_only-AreItems nil = tt
  keys_only-AreItems (item v vs) = (refl, keys_only-AreItems vs)

  keys_only-HasBareFields : (fs : Fields) → HasBareFields (keys_only_fields fs)
  keys_only-HasBareFields end = tt
  keys_only-HasBareFields (field k v fs) = (keys_only-IsBare v, keys_only-HasBareFields fs)

abbrev pub IsObject : Json → Type 0
IsObject (obj fs) = Unit
IsObject _ = ⊥

-- Under a sensitive name, or under another.
abbrev pub Under : Type 0 → Bool → Json → Type 0
Under Open true v = v ≡ redacted_placeholder
Under Open false v = Open

module _ (sensitive : String → Bool) where
  -- What `redacted` may write: the placeholder under every sensitive name, at any depth.
  unfoldable mutual
    pub Hides : Json → Type 0
    Hides (obj fs) = HidesFields fs
    Hides (arr vs) = HidesItems vs
    Hides _ = Unit

    pub HidesItems : Items → Type 0
    HidesItems nil = Unit
    HidesItems (item v vs) = Hides v × HidesItems vs

    pub HidesFields : Fields → Type 0
    HidesFields end = Unit
    HidesFields (field k v fs) = Under (Hides v) (sensitive k) v × HidesFields fs

  mutual
    unfolding redact Hides

    redact-Hides : (v : Json) → Hides (redact sensitive v)
    redact-Hides (obj fs) = redact-HidesFields fs
    redact-Hides (arr vs) = redact-HidesItems vs
    redact-Hides _ = tt

    redact-HidesItems : (vs : Items) → HidesItems (redact_items sensitive vs)
    redact-HidesItems nil = tt
    redact-HidesItems (item v vs) = (redact-Hides v, redact-HidesItems vs)

    redact-HidesFields : (fs : Fields) → HidesFields (redact_fields sensitive fs)
    redact-HidesFields end = tt
    redact-HidesFields (field k v fs) = elim (Bool-cases (sensitive k)) [
      | inl secret ↦ rw secret (refl, redact-HidesFields fs)
      | inr shown ↦ rw shown (redact-Hides v, redact-HidesFields fs)
    ]

  abbrev pub IsShownAs : RedactionMode → Json → Type 0
  IsShownAs Redaction.none v = v ≡ null
  IsShownAs keys_only v = IsObject v × IsBare v
  IsShownAs redacted v = IsObject v × Hides v
  IsShownAs full v = IsObject v

  pub represent_arguments-IsShownAs :
      (mode : RedactionMode) (fs : Fields) → IsShownAs mode (represent_arguments sensitive fs mode)
  unfolding represent_arguments keys_only_of IsBare redact Hides
  represent_arguments-IsShownAs Redaction.none fs = refl
  represent_arguments-IsShownAs keys_only fs = (tt, keys_only-HasBareFields fs)
  represent_arguments-IsShownAs redacted fs = (tt, redact-HidesFields fs)
  represent_arguments-IsShownAs full fs = tt
