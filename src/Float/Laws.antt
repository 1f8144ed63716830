-- ===== src/Float/Laws.antt =====
-- The comparisons of floats agree with each other.
use sentinel_mcp.Prelude.{◌≡◌, refl, ◌&&◌, arith}
use sentinel_mcp.Prelude.Int.{ℤ, beq_ℤ}
use sentinel_mcp.Float.{Float, nan, pos_inf, neg_inf, frac, float_le, float_eq, float_of_int}

-- `x == y` exactly when `x <= y` and `y <= x`.
pub float_eq_iff : (x y : Float) → float_eq x y ≡ (float_le x y && float_le y x)
float_eq_iff nan y = refl
float_eq_iff pos_inf nan = refl
float_eq_iff pos_inf pos_inf = refl
float_eq_iff pos_inf neg_inf = refl
float_eq_iff pos_inf (frac c d) = refl
float_eq_iff neg_inf nan = refl
float_eq_iff neg_inf pos_inf = refl
float_eq_iff neg_inf neg_inf = refl
float_eq_iff neg_inf (frac c d) = refl
float_eq_iff (frac a b) nan = refl
float_eq_iff (frac a b) pos_inf = refl
float_eq_iff (frac a b) neg_inf = refl
float_eq_iff (frac a b) (frac c d) = ground arith

-- Integers compare as floats as they compare as integers.
pub float_eq-float_of_int : (m n : ℤ) → float_eq (float_of_int m) (float_of_int n) ≡ beq_ℤ m n
float_eq-float_of_int m n = ground arith
