-- ===== src/Tests/Policies.antt =====
-- The policy engine (sentinelmcp/policy/engine.py) at the sample policy.
use sentinel_mcp.Prelude.{◌≡◌, ◌↔◌, true, false, none}
use sentinel_mcp.Prelude.Int.{pos}
use sentinel_mcp.Float.{frac}
use sentinel_mcp.Json.{int, float, arr, obj, nil, item, end, field}
use sentinel_mcp.Policy.Engine.{strict_equal, check_constraint, evaluate_argument_policy}
use sentinel_mcp.Policy.Engine.Spec.{StrictlyEqual, Meets, Satisfies}
use sentinel_mcp.Policy.Engine.Strict.{strict_equal_iff, strict_equal-nested}
use sentinel_mcp.Policy.Engine.Constraint.{check_constraint_iff}
use sentinel_mcp.Policy.Engine.Arguments.{evaluate_argument_policy_iff}
use sentinel_mcp.Tests.Samples.{read_rule, at_most_ten, three, echo}

evaluate_argument_policy_iff_example :
    (evaluate_argument_policy echo read_rule three ≡ none) ↔ Satisfies echo read_rule three
evaluate_argument_policy_iff_example = evaluate_argument_policy_iff echo read_rule three

check_constraint_iff_example :
    (check_constraint echo "limit" (int (pos 12)) at_most_ten ≡ none)
    ↔ Meets echo at_most_ten (int (pos 12))
check_constraint_iff_example = check_constraint_iff echo "limit" (int (pos 12)) at_most_ten

strict_equal_iff_example :
    (strict_equal (int (pos 1)) (float (frac (pos 1) 0)) ≡ true)
    ↔ StrictlyEqual (int (pos 1)) (float (frac (pos 1) 0))
strict_equal_iff_example = strict_equal_iff (int (pos 1)) (float (frac (pos 1) 0))

strict_equal-nested_example :
    (strict_equal (int (pos 1)) (float (frac (pos 1) 0)) ≡ false)
    × (strict_equal (arr (item (int (pos 1)) nil)) (arr (item (float (frac (pos 1) 0)) nil)) ≡ true)
    × (strict_equal
          (obj (field "a" (int (pos 1)) end))
          (obj (field "a" (float (frac (pos 1) 0)) end))
        ≡ true)
strict_equal-nested_example = strict_equal-nested (pos 1) "a"
