-- ===== src/Policy/Engine/Strict.antt =====
-- `_strict_equal` and `_strict_in` of sentinelmcp/policy/engine.py.
use sentinel_mcp.Prelude.{
  ◌≡◌, refl, ◌↔◌, true, false, List, [], ◌∷◌, String, arith, eq_iff, eq_refl,
}
use sentinel_mcp.Prelude.Int.{ℤ, beq_ℤ_iff}
use sentinel_mcp.Prelude.Dict.{get}
use sentinel_mcp.Float.{frac}
use sentinel_mcp.Float.Laws.{float_eq-float_of_int}
use sentinel_mcp.Json.{Json, null, bool, int, float, str, arr, obj, nil, item, end, field, py_eq}
use sentinel_mcp.Policy.Engine.{strict_equal, strict_in}
use sentinel_mcp.Policy.Engine.Spec.{StrictlyEqual, StrictlyIn}

-- `_strict_equal` accepts exactly the equal values of one type: no `bool` is an `int`, no `int` a
-- `float`, no number a text.
pub strict_equal_iff : (a b : Json) → (strict_equal a b ≡ true) ↔ StrictlyEqual a b
unfolding strict_equal py_eq
strict_equal_iff null null = ground arith
strict_equal_iff (bool true) (bool true) = ground arith
strict_equal_iff (bool true) (bool false) = ground arith
strict_equal_iff (bool false) (bool true) = ground arith
strict_equal_iff (bool false) (bool false) = ground arith
strict_equal_iff (int m) (int n) = ground (arith, float_eq-float_of_int m n, beq_ℤ_iff m n)
strict_equal_iff (float x) (float y) = ground arith
strict_equal_iff (str s) (str t) = eq_iff s t
strict_equal_iff (arr xs) (arr ys) = ground arith
strict_equal_iff (obj xs) (obj ys) = ground arith
strict_equal_iff _ _ = ground arith

-- `_strict_in` accepts exactly the values that strictly equal a candidate.
pub strict_in_iff : (v : Json) (ws : List Json) → (strict_in v ws ≡ true) ↔ StrictlyIn v ws
unfolding strict_in
strict_in_iff v [] = ground arith
strict_in_iff v (w ∷ ws) = ground (arith, strict_equal_iff v w, strict_in_iff v ws)

-- The test does not reach inside a list or an object: for every integer, the `int` and the `float` of
-- that value are told apart on their own, but not as the one element of a list, nor as the one field
-- of an object.
pub strict_equal-nested :
    (n : ℤ) (k : String)
    → (strict_equal (int n) (float (frac n 0)) ≡ false)
      × (strict_equal (arr (item (int n) nil)) (arr (item (float (frac n 0)) nil)) ≡ true)
      × (strict_equal (obj (field k (int n) end)) (obj (field k (float (frac n 0)) end)) ≡ true)
unfolding strict_equal py_eq get
strict_equal-nested n k = (refl, ground arith, rw (eq_refl k) (ground arith))
