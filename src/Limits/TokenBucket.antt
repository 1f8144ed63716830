-- ===== src/Limits/TokenBucket.antt =====
-- `TokenBucket` of sentinelmcp/gateway/limits.py. The clock's reading is an argument.
pub mod Bounds
pub mod Refill
use Prim.Native.Nat.{min}
use sentinel_mcp.Prelude.{ℕ, zero, suc, ◌+◌, ◌-◌, ◌*◌, Bool, true, false, leb, if◌then◌else◌}
use sentinel_mcp.Prelude.Int.{ℤ, pos, negsuc}
use sentinel_mcp.Exec.{Outcome, ok, raised, error}

pub record TokenBucket : Type 0 where
  pub capacity : ℕ
  pub refill_rate : ℕ
  pub tokens : ℕ
  pub last_refill : ℕ

-- __init__: the bucket starts full.
unfoldable pub create : ℤ → ℤ → ℕ → Outcome TokenBucket
create (negsuc c) rate now = raised (error "capacity must be positive")
create (pos zero) rate now = raised (error "capacity must be positive")
create (pos (suc c)) (negsuc r) now = raised (error "refill_rate must be positive")
create (pos (suc c)) (pos zero) now = raised (error "refill_rate must be positive")
create (pos (suc c)) (pos (suc r)) now =
    ok (record { capacity = suc c; refill_rate = suc r; tokens = suc c; last_refill = now })

-- `elapsed = max(0.0, now - self._last_refill)` and the capped refill
pub available_tokens : TokenBucket → ℕ → ℕ
available_tokens b now = min b.capacity (b.tokens + (now - b.last_refill) * b.refill_rate)

unfoldable pub try_consume : TokenBucket → ℕ → ℕ → TokenBucket × Bool
unfolding available_tokens
try_consume b amount now =
    if leb amount (available_tokens b now)
    then (record b { tokens = available_tokens b now - amount; last_refill = now }, true)
    else (record b { tokens = available_tokens b now; last_refill = now }, false)
