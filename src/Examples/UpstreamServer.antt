-- ===== src/Examples/UpstreamServer.antt =====
-- The demo upstream of examples/upstream_server.py: its counters, its tracker and its four tools. The
-- SDK that checks and passes the arguments is left out. `asyncio.sleep` ends as it is told to.
pub mod Tracking
use Prim.Native.Nat.{max}
use sentinel_mcp.Prelude.{ℕ, ◌+◌, ◌-◌, Bool, true, String}
use sentinel_mcp.Prelude.Int.{ℤ, pos}
use sentinel_mcp.Float.{Float}
use sentinel_mcp.Json.{Json, bool, int, float, str, arr, obj, nil, end, field}
use sentinel_mcp.Exec.{Outcome, ok, raised, Exec}

pub record InvocationCounters : Type 0 where
  pub query_stats : ℕ
  pub execute_write : ℕ
  pub noop : ℕ
  pub fixed_latency : ℕ

-- `current` is lowered only by a call that raised it before.
pub record ConcurrencyTracker : Type 0 where
  pub current : ℕ
  pub peak : ℕ

-- `counters` and `concurrency_tracker`
pub record Upstream : Type 0 where
  pub counters : InvocationCounters
  pub concurrency_tracker : ConcurrencyTracker

abbrev count : (InvocationCounters → InvocationCounters) → Upstream → Upstream
count f u = record u { counters = f u.counters }

unfoldable pub query_stats : String → ℤ → Bool → Exec Upstream Json
query_stats database limit include_query_text u = (
  ok (
      obj (
        field "database" (str database) (
          field "limit" (int limit)
            (field "include_query_text" (bool include_query_text) (field "rows" (arr nil) end))))),
  count (λ c. record c { query_stats = c.query_stats + 1 }) u,
)

unfoldable pub execute_write : String → String → Exec Upstream Json
execute_write database statement u = (
  ok (
      obj (
        field "database" (str database)
          (field "statement" (str statement) (field "rows_affected" (int (pos 0)) end)))),
  count (λ c. record c { execute_write = c.execute_write + 1 }) u,
)

unfoldable pub noop : Exec Upstream Json
noop u = (ok (obj (field "ok" (bool true) end)), count (λ c. record c { noop = c.noop + 1 }) u)

-- `fixed_latency` up to its `await`
unfoldable pub begin_latency : Upstream → Upstream
begin_latency u =
    let current = u.concurrency_tracker.current + 1 in
    record {
      counters = record u.counters { fixed_latency = u.counters.fixed_latency + 1 };
      concurrency_tracker = record {
        current = current;
        peak = max u.concurrency_tracker.peak current;
      };
    }

abbrev slept : Float → Outcome (Unit {0}) → Outcome Json
slept duration_seconds (ok _) =
    ok (obj (field "ok" (bool true) (field "duration_seconds" (float duration_seconds) end)))
slept duration_seconds (raised e) = raised e

-- and from there on: the `finally` block runs however the sleep ends.
unfoldable pub end_latency : Float → Outcome (Unit {0}) → Exec Upstream Json
end_latency duration_seconds sleep u = (
  slept duration_seconds sleep,
  record u {
    concurrency_tracker = record u.concurrency_tracker {
      current = u.concurrency_tracker.current - 1;
    };
  },
)
