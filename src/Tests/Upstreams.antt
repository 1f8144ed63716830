-- ===== src/Tests/Upstreams.antt =====
-- The examples and the benchmarks: two calls of `fixed_latency` beside each other, a client with a key,
-- and a trial with three samples.
use sentinel_mcp.Prelude.{false, ℕ, ◌≡◌, ◌↔◌, refl, some, [], ◌∷◌, arith, eq_iff}
use sentinel_mcp.Prelude.Int.{pos}
use sentinel_mcp.Float.{frac}
use sentinel_mcp.Exec.{raised, cancelled_error}
use sentinel_mcp.Identity.Resolver.{resolve}
use sentinel_mcp.Identity.Resolver.Keys.{HasKey}
use sentinel_mcp.Identity.Middleware.{header_values}
use sentinel_mcp.Benchmarks.Statistics.{Sample, insert, at_index, compute_trial_stats}
use sentinel_mcp.Benchmarks.Statistics.Trials.{InOrder, compute_trial_stats-InOrder}
use sentinel_mcp.Examples.Demo.{authed_headers, resolve-authed_headers_iff}
use sentinel_mcp.Examples.UpstreamServer.Tracking.{
  Hall, Reach, here, next, instant, fall_asleep, wake, nothing, IsUnused, IsTracked,
  tracker-IsTracked,
}
use sentinel_mcp.Tests.Samples.{runtime}
use sentinel_mcp.Tests.Identities.{digest, environ, pairs, digests, started}

abbrev quiet_hall : Hall
quiet_hall = record {
  upstream = record {
    counters = record { query_stats = 0; execute_write = 0; noop = 0; fixed_latency = 0 };
    concurrency_tracker = record { current = 0; peak = 0 };
  };
  asleep = [];
}

quiet_hall-IsUnused : IsUnused quiet_hall
quiet_hall-IsUnused = record { nobody = refl; no_calls = refl; none_current = refl; no_peak = refl }

-- Two fall asleep, the first of them is cancelled, and another tool is called.
abbrev history : (u : Hall) × Reach quiet_hall u
history = (
  _,
  next
      (next (next (next here (fall_asleep (frac (pos 1) 0))) (fall_asleep (frac (pos 2) 0)))
        (wake [] (frac (pos 1) 0) (frac (pos 2) 0 ∷ []) (raised cancelled_error) refl))
      (instant nothing),
)

tracker-IsTracked_example : IsTracked history.1
tracker-IsTracked_example = tracker-IsTracked quiet_hall-IsUnused history.1

resolve-authed_headers_iff_example :
    (resolve digest digests (header_values runtime.lower_other (authed_headers (some "k-1")))
      ≡ some "alice")
    ↔ HasKey digest environ "alice" (digest "k-1") pairs
resolve-authed_headers_iff_example =
    resolve-authed_headers_iff runtime.lower_other digest environ pairs digests started "k-1"
      "alice" (ground (arith, eq_iff "k-1" ""))

abbrev took : ℕ → Sample
took elapsed = record { elapsed = elapsed; is_error = false; is_timeout = false }

compute_trial_stats-InOrder_example :
    InOrder 3 9
      (compute_trial_stats (took 9 ∷ took 3 ∷ took 4 ∷ []) 20).p50
      (compute_trial_stats (took 9 ∷ took 3 ∷ took 4 ∷ []) 20).p95
      (compute_trial_stats (took 9 ∷ took 3 ∷ took 4 ∷ []) 20).p99
compute_trial_stats-InOrder_example =
    compute_trial_stats-InOrder (took 9) (took 3 ∷ took 4 ∷ []) 20 3 9
      ((omega arith, omega arith), ((omega arith, omega arith), ((omega arith, omega arith), tt)))

middle : (compute_trial_stats (took 9 ∷ took 3 ∷ took 4 ∷ []) 20).p50 ≡ some 400
unfolding compute_trial_stats insert at_index
middle = refl

upper : (compute_trial_stats (took 9 ∷ took 3 ∷ took 4 ∷ []) 20).p95 ≡ some 850
unfolding compute_trial_stats insert at_index
upper = refl
