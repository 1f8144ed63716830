-- ===== src/Float.antt =====
-- Python's `float`, as far as sentinelmcp/policy/engine.py uses it: comparisons. A finite binary64
-- value is the fraction that it stands for, and Python compares an `int` with a `float` by their exact
-- values, so the comparisons below are exact. A NaN is neither equal to nor ordered with any value.
pub mod Laws
use sentinel_mcp.Prelude.{ℕ, suc, ◌+◌, ◌*◌, Bool, true, false, leb, ◌==◌}
use sentinel_mcp.Prelude.Int.{ℤ, pos_part, neg_part}

-- `frac n d` is n / (d + 1). Signed zeros are one value, as they are for every comparison.
pub data Float : Type 0 where
  nan pos_inf neg_inf : Float
  frac : ℤ → ℕ → Float

-- x <= y
abbrev pub float_le : Float → Float → Bool
float_le nan _ = false
float_le neg_inf nan = false
float_le neg_inf _ = true
float_le pos_inf pos_inf = true
float_le pos_inf _ = false
float_le (frac a b) nan = false
float_le (frac a b) neg_inf = false
float_le (frac a b) pos_inf = true
float_le (frac a b) (frac c d) =
    leb (pos_part a * suc d + neg_part c * suc b) (pos_part c * suc b + neg_part a * suc d)

-- x == y
abbrev pub float_eq : Float → Float → Bool
float_eq pos_inf pos_inf = true
float_eq neg_inf neg_inf = true
float_eq (frac a b) (frac c d) =
    pos_part a * suc d + neg_part c * suc b == pos_part c * suc b + neg_part a * suc d
float_eq _ _ = false

-- The value of an `int`.
abbrev pub float_of_int : ℤ → Float
float_of_int n = frac n 0
