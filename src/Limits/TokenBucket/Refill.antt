-- ===== src/Limits/TokenBucket/Refill.antt =====
-- About the lazy refill of `TokenBucket`, in sentinelmcp/gateway/limits.py.
use sentinel_mcp.Prelude.{ℕ, ◌≤◌, ◌≡◌, false, arith}
use sentinel_mcp.Limits.TokenBucket.{TokenBucket, try_consume, available_tokens}
use sentinel_mcp.Limits.TokenBucket.Bounds.{flow-split}

-- A refused call costs nothing: at every later time as many tokens are available as if it had not
-- been made.
available_tokens-refused :
    (b : TokenBucket) (amount now later : ℕ)
    → b.last_refill ≤ now
    → now ≤ later
    → (try_consume b amount now).1 ≡ false
    → available_tokens (try_consume b amount now).0 later ≡ available_tokens b later
unfolding try_consume
available_tokens-refused b amount now later h k refused =
    ground (arith, flow-split b.last_refill now later b.refill_rate h k)
