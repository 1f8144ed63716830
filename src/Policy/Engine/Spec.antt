-- ===== src/Policy/Engine/Spec.antt =====
-- What docs/policy-semantics.md asks of an argument, stated without the code's tests: strict equality,
-- the operators of a constraint, and a tool's whole argument policy.
use Prim.Native.String.{count}
use sentinel_mcp.Prelude.{◌≡◌, ◌⊎◌, Bool, true, some, List, [], ◌∷◌, String, IsIn, All, length, map}
use sentinel_mcp.Prelude.Int.{ℤ, pos, ◌≤ℤ◌}
use sentinel_mcp.Prelude.Dict.{get, keys}
use sentinel_mcp.Float.{Float, float_le, float_eq, float_of_int}
use sentinel_mcp.Json.{Json, null, bool, int, float, str, arr, obj, Fields, items, fields, py_eq}
use sentinel_mcp.Text.{before, split}
use sentinel_mcp.Policy.Models.{ArgumentConstraint, ToolPolicy}
use sentinel_mcp.Policy.Engine.{dot, or_empty}

-- Equal values of one JSON type. Inside a list or an object Python's `==` decides.
abbrev pub StrictlyEqual : Json → Json → Type 0
StrictlyEqual null null = Unit
StrictlyEqual (bool a) (bool b) = a ≡ b
StrictlyEqual (int a) (int b) = a ≡ b
StrictlyEqual (float x) (float y) = float_eq x y ≡ true
StrictlyEqual (str s) (str t) = s ≡ t
StrictlyEqual (arr xs) (arr ys) = py_eq (arr xs) (arr ys) ≡ true
StrictlyEqual (obj xs) (obj ys) = py_eq (obj xs) (obj ys) ≡ true
StrictlyEqual _ _ = ⊥

abbrev pub StrictlyIn : Json → List Json → Type 0
StrictlyIn v [] = ⊥
StrictlyIn v (w ∷ ws) = StrictlyEqual v w ⊎ StrictlyIn v ws

-- A number, and not a `bool`, in the order given to its value.
abbrev pub NumberWith : (Float → Type 0) → Json → Type 0
NumberWith P (int n) = P (float_of_int n)
NumberWith P (float x) = P x
NumberWith P _ = ⊥

abbrev pub TextWith : (String → Type 0) → Json → Type 0
TextWith P (str s) = P s
TextWith P _ = ⊥

abbrev pub ListWith : (List Json → Type 0) → Json → Type 0
ListWith P (arr vs) = P (items vs)
ListWith P _ = ⊥

-- A name that the policy speaks of: `required`, `forbidden`, or the first segment of a path.
abbrev pub IsKnown : ToolPolicy → String → Type 0
IsKnown p name =
    IsIn name p.required ⊎ (IsIn name p.forbidden ⊎ IsIn name (map (before dot) (keys p.arguments)))

-- The entry of an object under a name, and what a path of names leads to, one object after the other.
pub data Leads : Json → List String → Json → Type 0 where
  arrived : (goal : Json) → Leads goal [] goal
  into :
      (name : String) (rest : List String) (inside : Fields) (next goal : Json)
      → get name (fields inside) ≡ some next
      → Leads next rest goal
      → Leads (obj inside) (name ∷ rest) goal

module _ (fullmatch : String → String → Bool) where
  -- Every operator that the constraint sets holds of the value.
  pub record Meets (c : ArgumentConstraint) (v : Json) : Type 0 where
    pub equals : IsIn "equals" c.model_fields_set → StrictlyEqual v c.equals
    pub in_ : IsIn "in_" c.model_fields_set → StrictlyIn v (or_empty c.in_)
    pub min : (x : Float) → c.min ≡ some x → NumberWith (λ y. float_le x y ≡ true) v
    pub max : (x : Float) → c.max ≡ some x → NumberWith (λ y. float_le y x ≡ true) v
    pub min_length : (n : ℤ) → c.min_length ≡ some n → TextWith (λ s. n ≤ℤ pos (count s)) v
    pub max_length : (n : ℤ) → c.max_length ≡ some n → TextWith (λ s. pos (count s) ≤ℤ n) v
    pub min_items : (n : ℤ) → c.min_items ≡ some n → ListWith (λ vs. n ≤ℤ pos (length vs)) v
    pub max_items : (n : ℤ) → c.max_items ≡ some n → ListWith (λ vs. pos (length vs) ≤ℤ n) v
    pub pattern : (p : String) → c.pattern ≡ some p → TextWith (λ s. fullmatch p s ≡ true) v

  -- A path is the names between its dots.
  abbrev pub MeetsAt : Fields → String × ArgumentConstraint → Type 0
  MeetsAt arguments (path, c) = (v : Json) → Leads (obj arguments) (split dot path) v → Meets c v

  pub record Satisfies (p : ToolPolicy) (arguments : Fields) : Type 0 where
    pub required : All (λ name. IsIn name (keys (fields arguments))) p.required
    pub forbidden : All (λ name. ¬ IsIn name (keys (fields arguments))) p.forbidden
    pub known : p.deny_unknown_arguments ≡ true → All (IsKnown p) (keys (fields arguments))
    pub constrained : All (MeetsAt arguments) p.arguments
