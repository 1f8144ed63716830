-- ===== src/Bridge/Placing.antt =====
-- The call of the upstream in `handle_call_tool` of sentinelmcp/gateway/bridge.py: when
-- `asyncio.wait_for` lets it start.
use sentinel_mcp.Prelude.{
  ℕ, zero, suc, ◌≤◌, ◌+◌, ◌≡◌, ◌≢◌, refl, ◌⊎◌, inl, inr, Option, none, some, List, [], ◌∷◌, ◌++◌,
  String, arith, length, length-append,
}
use sentinel_mcp.Json.{Fields}
use sentinel_mcp.Bridge.Turns.{placed}

-- Either the timeout leaves time, and the upstream gets the call; or it is zero, and it gets nothing.
pub placed-cases :
    (timeout : Option ℕ) (tool_name : String) (arguments : Fields) (calls : List (String × Fields))
    → ((timeout ≢ some 0)
        × (placed timeout tool_name arguments calls ≡ calls ++ (tool_name, arguments) ∷ []))
      ⊎ ((timeout ≡ some 0) × (placed timeout tool_name arguments calls ≡ calls))
placed-cases none tool_name arguments calls = inl ((λ h. ground arith), refl)
placed-cases (some zero) tool_name arguments calls = inr (refl, refl)
placed-cases (some (suc n)) tool_name arguments calls = inl ((λ h. ground arith), ground arith)

pub length-placed_le :
    (timeout : Option ℕ) (tool_name : String) (arguments : Fields) (calls : List (String × Fields))
    → length (placed timeout tool_name arguments calls) ≤ length calls + 1
length-placed_le timeout tool_name arguments calls =
    elim (placed-cases timeout tool_name arguments calls) [
      | inl (timely, once) ↦
          rw once (omega (arith, length-append calls ((tool_name, arguments) ∷ [])))
      | inr (timeless, nothing) ↦ rw nothing (omega arith)
    ]
