-- ===== src/Examples/UpstreamServer/Tracking.antt =====
-- Calls of the tools of examples/upstream_server.py in flight beside each other: only `fixed_latency`
-- suspends.
use Prim.Native.Nat.{max}
use sentinel_mcp.Prelude.{
  ℕ, suc, ◌+◌, ◌≤◌, ◌≡◌, refl, sym, ap, ◌∙◌, Bool, List, [], ◌∷◌, ◌++◌, String, arith, length,
  length-append,
}
use sentinel_mcp.Prelude.Int.{ℤ}
use sentinel_mcp.Float.{Float}
use sentinel_mcp.Exec.{Outcome}
use sentinel_mcp.Examples.UpstreamServer.{
  InvocationCounters, ConcurrencyTracker, Upstream, query_stats, execute_write, noop, begin_latency,
  end_latency,
}

-- The server with the calls that sleep, each with its duration.
pub record Hall : Type 0 where
  pub upstream : Upstream
  pub asleep : List Float

-- A call of a tool that does not suspend.
pub data Instant : Type 0 where
  stats : String → ℤ → Bool → Instant
  write : String → String → Instant
  nothing : Instant

abbrev pub serve : Instant → Upstream → Upstream
serve (stats database limit include_query_text) u =
    (query_stats database limit include_query_text u).1
serve (write database statement) u = (execute_write database statement u).1
serve nothing u = (noop u).1

pub data Step (h : Hall) : Hall → Type 0 where
  instant : (c : Instant) → Step h (record h { upstream = serve c h.upstream })
  fall_asleep :
      (duration : Float)
      → Step h (record { upstream = begin_latency h.upstream; asleep = h.asleep ++ duration ∷ [] })
  wake :
      (before : List Float) (duration : Float) (after : List Float) (sleep : Outcome (Unit {0}))
      → h.asleep ≡ before ++ duration ∷ after
      → Step h (record {
        upstream = (end_latency duration sleep h.upstream).1;
        asleep = before ++ after;
      })

pub data Reach (h : Hall) : Hall → Type 0 where
  here : Reach h h
  next : {u v : Hall} → Reach h u → Step u v → Reach h v

-- The most calls that slept at any one time of a run.
unfoldable pub most_asleep : {h : Hall} {u : Hall} → Reach h u → ℕ
most_asleep {h} here = length h.asleep
most_asleep (next {u} {v} reached step) = max (most_asleep reached) (length v.asleep)

-- How many calls have woken.
unfoldable pub woken : {h : Hall} {u : Hall} → Reach h u → ℕ
woken here = 0
woken (next reached (instant c)) = woken reached
woken (next reached (fall_asleep duration)) = woken reached
woken (next reached (wake before duration after sleep split)) = suc (woken reached)

-- How many calls of each tool that does not suspend have come.
abbrev is_stats : Instant → ℕ
is_stats (stats database limit include_query_text) = 1
is_stats _ = 0

abbrev is_write : Instant → ℕ
is_write (write database statement) = 1
is_write _ = 0

abbrev is_nothing : Instant → ℕ
is_nothing nothing = 1
is_nothing _ = 0

unfoldable pub came : (Instant → ℕ) → {h : Hall} {u : Hall} → Reach h u → ℕ
came is here = 0
came is (next reached (instant c)) = came is reached + is c
came is (next reached (fall_asleep duration)) = came is reached
came is (next reached (wake before duration after sleep split)) = came is reached

-- The server as it is imported: nothing counted, nothing tracked, no call asleep.
pub record IsUnused (h : Hall) : Type 0 where
  pub nobody : h.asleep ≡ []
  pub no_calls :
      h.upstream.counters
      ≡ record { query_stats = 0; execute_write = 0; noop = 0; fixed_latency = 0 }
  pub none_current : h.upstream.concurrency_tracker.current ≡ 0
  pub no_peak : h.upstream.concurrency_tracker.peak ≡ 0

-- What the tracker and the counters say is what happened.
pub record IsTracked {h : Hall} {u : Hall} (reached : Reach h u) : Type 0 where
  pub current : u.upstream.concurrency_tracker.current ≡ length u.asleep
  pub peak : u.upstream.concurrency_tracker.peak ≡ most_asleep reached
  pub counted : u.upstream.counters.fixed_latency ≡ woken reached + length u.asleep
  pub stats_counted : u.upstream.counters.query_stats ≡ came is_stats reached
  pub writes_counted : u.upstream.counters.execute_write ≡ came is_write reached
  pub noops_counted : u.upstream.counters.noop ≡ came is_nothing reached

latency-serve :
    (c : Instant) (u : Upstream)
    → ((serve c u).concurrency_tracker ≡ u.concurrency_tracker)
      × ((serve c u).counters.fixed_latency ≡ u.counters.fixed_latency)
unfolding query_stats execute_write noop
latency-serve (stats database limit include_query_text) u = (refl, refl)
latency-serve (write database statement) u = (refl, refl)
latency-serve nothing u = (refl, refl)

counters-serve :
    (c : Instant) (u : Upstream)
    → ((serve c u).counters.query_stats ≡ u.counters.query_stats + is_stats c)
      × ((serve c u).counters.execute_write ≡ u.counters.execute_write + is_write c)
      × ((serve c u).counters.noop ≡ u.counters.noop + is_nothing c)
unfolding query_stats execute_write noop
counters-serve (stats database limit include_query_text) u = (refl, omega arith, omega arith)
counters-serve (write database statement) u = (omega arith, refl, omega arith)
counters-serve nothing u = (omega arith, omega arith, refl)

most_asleep-le : {h : Hall} {u : Hall} (reached : Reach h u) → length u.asleep ≤ most_asleep reached
unfolding most_asleep
most_asleep-le here = omega arith
most_asleep-le (next reached step) = omega arith

serve-IsTracked :
    {h : Hall} {u : Hall} (reached : Reach h u) (c : Instant)
    → IsTracked reached
    → IsTracked (next reached (instant c))
unfolding most_asleep woken came
serve-IsTracked {h} {u} reached c t =
    let (tracker, counter) = latency-serve c u.upstream in
    let (stats_more, writes_more, noops_more) = counters-serve c u.upstream in
    record {
      current = ap (λ (x : ConcurrencyTracker). x.current) tracker ∙ t.current;
      peak =
          omega (
            arith,
            ap (λ (x : ConcurrencyTracker). x.peak) tracker,
            t.peak,
            most_asleep-le reached,
          );
      counted = counter ∙ t.counted;
      stats_counted = omega (arith, stats_more, t.stats_counted);
      writes_counted = omega (arith, writes_more, t.writes_counted);
      noops_counted = omega (arith, noops_more, t.noops_counted);
    }

-- From a server that was not used yet, however the calls of its tools interleave and however their
-- sleeps end: `current` is the number of the `fixed_latency` calls that are asleep, `peak` is the most
-- that were asleep at any one time, and each call that came is counted once, under its own tool.
pub tracker-IsTracked :
    {h : Hall} {u : Hall} → IsUnused h → (reached : Reach h u) → IsTracked reached
unfolding most_asleep woken came begin_latency end_latency
tracker-IsTracked unused here = record {
  current = unused.none_current ∙ sym (ap length unused.nobody);
  peak = unused.no_peak ∙ sym (ap length unused.nobody);
  counted = omega (
    arith,
    ap (λ (c : InvocationCounters). c.fixed_latency) unused.no_calls,
    ap length unused.nobody,
  );
  stats_counted = ap (λ (c : InvocationCounters). c.query_stats) unused.no_calls;
  writes_counted = ap (λ (c : InvocationCounters). c.execute_write) unused.no_calls;
  noops_counted = ap (λ (c : InvocationCounters). c.noop) unused.no_calls;
}
tracker-IsTracked unused (next reached (instant c)) =
    serve-IsTracked reached c (tracker-IsTracked unused reached)
tracker-IsTracked unused (next {u} reached (fall_asleep duration)) =
    let t = tracker-IsTracked unused reached in
    let more = length-append u.asleep (duration ∷ []) in
    record {
      current = omega (arith, t.current, more);
      peak = omega (arith, t.current, t.peak, more);
      counted = omega (arith, t.counted, more);
      stats_counted = t.stats_counted;
      writes_counted = t.writes_counted;
      noops_counted = t.noops_counted;
    }
tracker-IsTracked unused (next {u} reached (wake before duration after sleep split)) =
    let t = tracker-IsTracked unused reached in
    let were = ap length split in
    let had = length-append before (duration ∷ after) in
    let left = length-append before after in
    record {
      current = omega (arith, t.current, were, had, left);
      peak = omega (arith, t.peak, were, had, left, most_asleep-le reached);
      counted = omega (arith, t.counted, were, had, left);
      stats_counted = t.stats_counted;
      writes_counted = t.writes_counted;
      noops_counted = t.noops_counted;
    }
