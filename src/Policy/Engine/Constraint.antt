-- ===== src/Policy/Engine/Constraint.antt =====
-- About `_check_constraint` of sentinelmcp/policy/engine.py, against `Meets` of Spec.
use Prim.Native.String.{count}
use sentinel_mcp.Prelude.{
  ◌≡◌, refl, ◌↔◌, Bool, true, false, not, ◌&&◌, Option, none, some, List, String, arith, elem, IsIn,
  elem_iff, length, if◌then◌else◌,
}
use mathlib.Core.Path.{subst}
use mathlib.Core.Option.{some-injective}
use sentinel_mcp.Prelude.Int.{ℤ, pos, ◌≤ℤ◌, leb_ℤ_iff}
use sentinel_mcp.Float.{Float, float_le}
use sentinel_mcp.Json.{Json, int, float, str, arr, items}
use sentinel_mcp.Policy.Models.{ArgumentConstraint}
use sentinel_mcp.Policy.Engine.{
  Violation, not_equal, not_in, below_min, above_max, too_short, too_long, too_few, too_many,
  no_match, number, at_least, at_most, text_length, list_length, length_at_least, length_at_most,
  breaks, or_empty, matches, check_constraint,
}
use sentinel_mcp.Policy.Engine.Spec.{NumberWith, TextWith, ListWith, Meets}
use sentinel_mcp.Policy.Engine.Strict.{strict_equal_iff, strict_in_iff}

of_not : (b : Bool) → not b ≡ false → b ≡ true
of_not b h = ground arith

to_not : (b : Bool) → b ≡ true → not b ≡ false
to_not b h = ground arith

-- An operator that is set holds, whichever test it makes.
breaks_iff {ℓ κ} :
    {B : Type ℓ} (o : Option B) (ok : B → Bool) (P : B → Type κ)
    → ((b : B) → (ok b ≡ true) ↔ P b)
    → (breaks o ok ≡ false) ↔ ((b : B) → o ≡ some b → P b)
breaks_iff none ok P h = ((λ _ b e. cc), λ _. refl)
breaks_iff (some b) ok P h = (
  (λ e c same. subst P (some-injective b c same) ((h b).0 (of_not (ok b) e))),
  λ k. to_not (ok b) ((h b).1 (k b refl)),
)

guarded_iff {κ} :
    (name : String) (names : List String) (b : Bool) (P : Type κ)
    → (b ≡ true) ↔ P
    → ((elem name names && not b) ≡ false) ↔ (IsIn name names → P)
guarded_iff name names true P h = ((λ _ _. h.0 refl), λ _. ground arith)
guarded_iff name names false P h = (
  (λ e inside. cc (e, (elem_iff name names).1 inside)),
  λ k. ground (arith, elem_iff name names, λ (i : IsIn name names). h.1 (k i)),
)

at_least_iff :
    (x : Float) (v : Json)
    → (at_least x (number v) ≡ true) ↔ NumberWith (λ y. float_le x y ≡ true) v
at_least_iff x (int n) = ground arith
at_least_iff x (float y) = ground arith
at_least_iff x _ = ground arith

at_most_iff :
    (x : Float) (v : Json) → (at_most x (number v) ≡ true) ↔ NumberWith (λ y. float_le y x ≡ true) v
at_most_iff x (int n) = ground arith
at_most_iff x (float y) = ground arith
at_most_iff x _ = ground arith

min_length_iff :
    (n : ℤ) (v : Json)
    → (length_at_least n (text_length v) ≡ true) ↔ TextWith (λ s. n ≤ℤ pos (count s)) v
min_length_iff n (str s) = leb_ℤ_iff n (pos (count s))
min_length_iff n _ = ground arith

max_length_iff :
    (n : ℤ) (v : Json)
    → (length_at_most n (text_length v) ≡ true) ↔ TextWith (λ s. pos (count s) ≤ℤ n) v
max_length_iff n (str s) = leb_ℤ_iff (pos (count s)) n
max_length_iff n _ = ground arith

min_items_iff :
    (n : ℤ) (v : Json)
    → (length_at_least n (list_length v) ≡ true) ↔ ListWith (λ vs. n ≤ℤ pos (length vs)) v
min_items_iff n (arr vs) = leb_ℤ_iff n (pos (length (items vs)))
min_items_iff n _ = ground arith

max_items_iff :
    (n : ℤ) (v : Json)
    → (length_at_most n (list_length v) ≡ true) ↔ ListWith (λ vs. pos (length vs) ≤ℤ n) v
max_items_iff n (arr vs) = leb_ℤ_iff (pos (length (items vs))) n
max_items_iff n _ = ground arith

-- One `return` of a chain.
chain_iff {κ μ} :
    {P : Type κ} {Q : Type μ} (b : Bool) (reason : Violation) (later : Option Violation)
    → (b ≡ false) ↔ P
    → (later ≡ none) ↔ Q
    → ((if b then some reason else later) ≡ none) ↔ (P × Q)
chain_iff true reason later p q = ((λ e. cc), λ (h, k). cc (p.1 h))
chain_iff false reason later p q = ((λ e. (p.0 refl, q.0 e)), λ (h, k). q.1 k)

module _ (fullmatch : String → String → Bool) where
  matches_iff :
      (p : String) (v : Json)
      → (matches fullmatch p v ≡ true) ↔ TextWith (λ s. fullmatch p s ≡ true) v
  matches_iff p (str s) = ((λ e. e), λ e. e)
  matches_iff p _ = ground arith

  -- A value is accepted exactly when it meets every operator that the constraint sets.
  pub check_constraint_iff :
      (path : String) (v : Json) (c : ArgumentConstraint)
      → (check_constraint fullmatch path v c ≡ none) ↔ Meets fullmatch c v
  unfolding check_constraint
  check_constraint_iff path v c =
      let chain =
        chain_iff _ (not_equal path) _
          (guarded_iff "equals" c.model_fields_set _ _ (strict_equal_iff v c.equals))
          (chain_iff _ (not_in path) _
            (guarded_iff "in_" c.model_fields_set _ _ (strict_in_iff v (or_empty c.in_)))
            (chain_iff _ (below_min path) _ (breaks_iff c.min _ _ (λ x. at_least_iff x v)) (
              chain_iff _ (above_max path) _ (breaks_iff c.max _ _ (λ x. at_most_iff x v)) (
                chain_iff _ (too_short path) _
                  (breaks_iff c.min_length _ _ (λ x. min_length_iff x v))
                  (chain_iff _ (too_long path) _
                    (breaks_iff c.max_length _ _ (λ x. max_length_iff x v))
                    (chain_iff _ (too_few path) _
                      (breaks_iff c.min_items _ _ (λ x. min_items_iff x v))
                      (chain_iff _ (too_many path) _
                        (breaks_iff c.max_items _ _ (λ x. max_items_iff x v))
                        (chain_iff {0, 0} {Q = Unit {0}} _ (no_match path) none
                          (breaks_iff c.pattern _ _ (λ x. matches_iff x v))
                          ((λ _. tt), λ _. refl))))))))) in
      (
        (λ e.
            let m = chain.0 e in
            record {
              equals = (m.0);
              in_ = (m.1.0);
              min = (m.1.1.0);
              max = (m.1.1.1.0);
              min_length = (m.1.1.1.1.0);
              max_length = (m.1.1.1.1.1.0);
              min_items = (m.1.1.1.1.1.1.0);
              max_items = (m.1.1.1.1.1.1.1.0);
              pattern = (m.1.1.1.1.1.1.1.1.0);
            }),
        λ m. chain.1 (
          m.equals,
          (
            m.in_,
            (
              m.min,
              (
                m.max,
                (m.min_length, (m.max_length, (m.min_items, (m.max_items, (m.pattern, tt))))),
              ),
            ),
          ),
        ),
      )
