-- ===== src/Bridge/Results/Wordings.antt =====
-- The texts of the error results of sentinelmcp/gateway/bridge.py, stage by stage.
use Prim.Native.Char.{code}
use Prim.Native.String
use Prim.Native.String.{String, count}
use text.Mathlib.TextLemmas.{cons-append, length-cons}
use sentinel_mcp.Prelude.{
  ℕ, zero, suc, ◌<◌, arith, ◌+◌, ◌*◌, ◌≡◌, ◌≢◌, refl, ap, sym, ◌∙◌, ◌==◌, List, ◌∷◌, if◌then◌else◌,
}
use sentinel_mcp.Bridge.Results.{
  CallToolResult, Content, text_content, denied_result, schema_invalid_result,
  policy_invalid_result, rate_limited_result, concurrency_rejected_result, upstream_timeout_result,
  upstream_error_result,
}

-- The ways in which a call gets an error result of the gateway's own.
pub data Stage : Type 0 where
  unknown bad_schema bad_arguments limited busy timed_out failed : Stage

-- The result of a stage, for a tool name and, where the stage gives one, a reason.
pub result_of : Stage → (tool_name reason : String) → CallToolResult
result_of unknown tool_name reason = denied_result tool_name
result_of bad_schema tool_name reason = schema_invalid_result tool_name reason
result_of bad_arguments tool_name reason = policy_invalid_result tool_name reason
result_of limited tool_name reason = rate_limited_result tool_name
result_of busy tool_name reason = concurrency_rejected_result tool_name
result_of timed_out tool_name reason = upstream_timeout_result tool_name
result_of failed tool_name reason = upstream_error_result tool_name reason

-- The code point at a place, or 0 past the end.
code_at : ℕ → String → ℕ
code_at n String.[] = 0
code_at zero (String.◌∷◌ c s) = code c
code_at (suc n) (String.◌∷◌ c s) = code_at n s

code_at-append : (n : ℕ) (s t : String) → n < count s → code_at n (String.◌++◌ s t) ≡ code_at n s
unfolding code_at
code_at-append n String.[] t h = absurd (omega (arith, h))
code_at-append zero (String.◌∷◌ c s) t h = rw (cons-append c s t) refl
code_at-append (suc n) (String.◌∷◌ c s) t h =
    rw (cons-append c s t) (code_at-append n s t (omega (arith, h, length-cons c s)))

-- A number from the second and the tenth letter.
letters : String → ℕ
letters s = code_at 9 s + 3 * code_at 1 s

letters-append : (s t : String) → 9 < count s → letters (String.◌++◌ s t) ≡ letters s
unfolding letters
letters-append s t h = rw (code_at-append 9 s t h, code_at-append 1 s t (omega (arith, h))) refl

mark : List Content → ℕ
mark (text_content s ∷ rest) = letters s
mark contents = 0

stage_of : ℕ → Stage
stage_of n =
    if n == 441
    then unknown
    else if n == 415
    then bad_schema
    else if n == 454
    then bad_arguments
    else if n == 407
    then limited
    else if n == 432
    then busy
    else if n == 452
    then timed_out
    else failed

abbrev with_reason : String → String → String
with_reason tool_name reason = String.◌++◌ tool_name (String.◌++◌ ": " reason)

stage_of-result_of :
    (s : Stage) (tool_name reason : String)
    → stage_of (mark (result_of s tool_name reason).content) ≡ s
unfolding stage_of mark letters code_at result_of denied_result schema_invalid_result
    policy_invalid_result rate_limited_result concurrency_rejected_result upstream_timeout_result
    upstream_error_result
stage_of-result_of unknown tool_name reason =
    ap stage_of (letters-append "Unknown tool: " tool_name (omega arith))
stage_of-result_of bad_schema tool_name reason =
    ap stage_of
      (letters-append "Schema-invalid arguments for " (with_reason tool_name reason) (omega arith))
stage_of-result_of bad_arguments tool_name reason =
    ap stage_of
      (letters-append "Argument policy violation for " (with_reason tool_name reason) (omega arith))
stage_of-result_of limited tool_name reason =
    ap stage_of (letters-append "Rate limit exceeded for " tool_name (omega arith))
stage_of-result_of busy tool_name reason =
    ap stage_of (letters-append "Concurrency limit exceeded for " tool_name (omega arith))
stage_of-result_of timed_out tool_name reason =
    ap stage_of (letters-append "Upstream timeout for " tool_name (omega arith))
stage_of-result_of failed tool_name reason =
    ap stage_of (letters-append "Upstream error for " (with_reason tool_name reason) (omega arith))

-- Results of different stages differ in their content, whatever the tool names and the reasons: an
-- unknown tool, a schema violation, an argument violation, either limit, a timeout and an upstream error
-- can be told apart.
result_of-differ :
    (s t : Stage) (tool_name tool_name' reason reason' : String)
    → s ≢ t
    → (result_of s tool_name reason).content ≢ (result_of t tool_name' reason').content
result_of-differ s t tool_name tool_name' reason reason' differ same = differ (
    sym (stage_of-result_of s tool_name reason)
    ∙ ap (λ (cs : List Content). stage_of (mark cs)) same
    ∙ stage_of-result_of t tool_name' reason')
