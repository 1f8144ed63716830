-- ===== src/Limits/Concurrency.antt =====
-- `ConcurrencyLimiter` of sentinelmcp/gateway/limits.py: a ceiling on the active executions of each
-- principal. `acquire`, the context manager, is `with_slot` of Bridge/CallTool.
pub mod Holders
use sentinel_mcp.Prelude.{
  ℕ, zero, suc, ◌+◌, ◌-◌, Bool, true, false, none, some, String, leb, ltb, if◌then◌else◌, [],
}
use sentinel_mcp.Prelude.Int.{ℤ, pos, negsuc}
use sentinel_mcp.Prelude.Dict.{Dict, get, put}
use sentinel_mcp.Exec.{Outcome, ok, raised, error}

pub record ConcurrencyLimiter : Type 0 where
  pub max_concurrent : ℕ
  pub active : Dict ℕ
  pub peak : Dict ℕ

unfoldable pub create : ℤ → Outcome ConcurrencyLimiter
create (negsuc n) = raised (error "max_concurrent must be positive")
create (pos zero) = raised (error "max_concurrent must be positive")
create (pos (suc n)) = ok (record { max_concurrent = suc n; active = []; peak = [] })

-- d.get(principal, 0)
unfoldable pub count_of : String → Dict ℕ → ℕ
count_of principal d = elim (get principal d) [ none ↦ 0 | some n ↦ n ]

-- The peak is raised to the new count where that is higher.
record_peak : String → ℕ → Dict ℕ → Dict ℕ
record_peak principal current peak =
    if ltb (count_of principal peak) current then put principal current peak else peak

unfoldable pub try_acquire : ConcurrencyLimiter → String → ConcurrencyLimiter × Bool
unfolding record_peak
try_acquire limiter principal =
    let current = count_of principal limiter.active in
    if leb limiter.max_concurrent current then (limiter, false) else (
      record limiter {
        active = put principal (current + 1) limiter.active;
        peak = record_peak principal (current + 1) limiter.peak;
      },
      true,
    )

-- `max(0, current - 1)`
pub release : ConcurrencyLimiter → String → ConcurrencyLimiter
release limiter principal = record limiter {
  active = put principal (count_of principal limiter.active - 1) limiter.active;
}

abbrev pub active_count : ConcurrencyLimiter → String → ℕ
active_count limiter principal = count_of principal limiter.active

abbrev pub peak_count : ConcurrencyLimiter → String → ℕ
peak_count limiter principal = count_of principal limiter.peak
