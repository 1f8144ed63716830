-- ===== src/Benchmarks/Statistics.antt =====
-- The statistics of benchmarks/run.py. Times are whole multiples of a unit as small as one likes; a
-- percentile is given in hundredths of it, and a rate as a fraction, both exact. `nan` is `none`.
pub mod Sorting
pub mod Percentiles
pub mod Trials
use Prim.Native.Nat.{◌/◌, ◌%◌}
use sentinel_mcp.Prelude.{
  ℕ, zero, suc, ◌+◌, ◌-◌, ◌*◌, Bool, true, false, Option, none, some, List, [], ◌∷◌, ◌==◌, leb, map,
  length, if◌then◌else◌,
}
use sentinel_mcp.Exec.{Outcome, ok, raised, timeout_error, cancelled_error, error}

pub record Sample : Type 0 where
  pub elapsed : ℕ
  pub is_error : Bool
  pub is_timeout : Bool

-- `sorted`
unfoldable pub insert : ℕ → List ℕ → List ℕ
insert v [] = v ∷ []
insert v (w ∷ ws) = let rest = insert v ws in if leb v w then v ∷ w ∷ ws else w ∷ rest

unfoldable pub sorted : List ℕ → List ℕ
sorted [] = []
sorted (v ∷ vs) = insert v (sorted vs)

-- `values[i]`, for an index that is below the length.
unfoldable pub at_index : ℕ → List ℕ → ℕ
at_index i [] = 0
at_index zero (v ∷ vs) = v
at_index (suc i) (v ∷ vs) = at_index i vs

-- The value at a place that is given in hundredths: where the place is no index, the weighted mean of
-- its two neighbours, `lo + (hi - lo) * (k - f)`.
unfoldable pub value_at : ℕ → List ℕ → ℕ
value_at place values =
    let below = place / 100 in
    let above = (place + 99) / 100 in
    if below == above
    then 100 * at_index below values
    else at_index below values * (100 - place % 100) + at_index above values * (place % 100)

-- `_percentile`
unfoldable pub percentile : List ℕ → ℕ → Option ℕ
unfolding value_at
percentile [] pct = none
percentile (v ∷ vs) pct = some (value_at (length vs * pct) (v ∷ vs))

abbrev pub one_if : Bool → ℕ
one_if true = 1
one_if false = 0

-- A fraction, its numerator and its denominator.
abbrev pub fraction : ℕ → ℕ → Option (ℕ × ℕ)
fraction a zero = none
fraction a (suc b) = some (a, suc b)

abbrev pub count_of : (Sample → Bool) → List Sample → ℕ
count_of test [] = 0
count_of test (s ∷ ss) = count_of test ss + one_if (test s)

pub record TrialStats : Type 0 where
  pub request_count : ℕ
  pub wall_seconds : ℕ
  pub throughput : Option (ℕ × ℕ)
  pub p50 : Option ℕ
  pub p95 : Option ℕ
  pub p99 : Option ℕ
  pub mean : Option (ℕ × ℕ)
  pub error_rate : Option (ℕ × ℕ)
  pub timeout_rate : Option (ℕ × ℕ)

abbrev pub sum : List ℕ → ℕ
sum [] = 0
sum (v ∷ vs) = sum vs + v

-- `_compute_trial_stats`
unfoldable pub compute_trial_stats : List Sample → (wall : ℕ) → TrialStats
unfolding percentile sorted
compute_trial_stats samples wall =
    let elapsed = sorted (map (λ s. s.elapsed) samples) in
    let n = length samples in
    record {
      request_count = n;
      wall_seconds = wall;
      throughput = fraction n wall;
      p50 = percentile elapsed 50;
      p95 = percentile elapsed 95;
      p99 = percentile elapsed 99;
      mean = fraction (sum elapsed) (length elapsed);
      error_rate = fraction (count_of (λ s. s.is_error) samples) n;
      timeout_rate = fraction (count_of (λ s. s.is_timeout) samples) n;
    }

-- One round of `_worker`: how a call ended, its result's `is_error`, and how long it took. A
-- cancellation is no `Exception` and leaves the loop.
abbrev pub sample_of : ℕ → Outcome Bool → Outcome Sample
sample_of elapsed (ok is_error) =
    ok (record { elapsed = elapsed; is_error = is_error; is_timeout = false })
sample_of elapsed (raised timeout_error) =
    ok (record { elapsed = elapsed; is_error = true; is_timeout = true })
sample_of elapsed (raised (error reason)) =
    ok (record { elapsed = elapsed; is_error = true; is_timeout = false })
sample_of elapsed (raised cancelled_error) = raised cancelled_error

abbrev and_sample : Outcome Sample → Outcome (List Sample) → Outcome (List Sample)
and_sample (raised e) later = raised e
and_sample (ok s) (raised e) = raised e
and_sample (ok s) (ok ss) = ok (s ∷ ss)

-- `_worker`, for the calls as they end.
unfoldable pub worker : List (ℕ × Outcome Bool) → Outcome (List Sample)
worker [] = ok []
worker ((elapsed, ended) ∷ calls) = and_sample (sample_of elapsed ended) (worker calls)
