-- ===== src/Benchmarks/Statistics/Trials.antt =====
-- What the numbers of one trial of benchmarks/run.py have to do with each other.
use sentinel_mcp.Prelude.{
  ℕ, suc, ◌*◌, ◌≤◌, ◌≡◌, refl, ap, ◌∙◌, Bool, true, false, Option, some, List, [], ◌∷◌, arith,
  length, map, All,
}
use sentinel_mcp.Exec.{cancelled_error, timeout_error, error, Outcome, ok, raised}
use sentinel_mcp.Benchmarks.Statistics.{
  Sample, sorted, percentile, compute_trial_stats, count_of, one_if, sample_of, and_sample, worker,
}
use sentinel_mcp.Benchmarks.Statistics.Sorting.{
  IsSorted, sorted-All, sorted-IsSorted, length-sorted,
}
use sentinel_mcp.Benchmarks.Statistics.Percentiles.{at_percent, at_percent_mono, at_percent_bounds}

All-elapsed :
    (P : ℕ → Type 0) (samples : List Sample)
    → All (λ s. P s.elapsed) samples
    → All P (map (λ s. s.elapsed) samples)
All-elapsed P [] h = tt
All-elapsed P (s ∷ ss) (here, h) = (here, All-elapsed P ss h)

nonempty : (vs : List ℕ) (n : ℕ) → length vs ≡ suc n → (v : ℕ) × (ws : List ℕ) × (vs ≡ v ∷ ws)
nonempty [] n h = absurd (omega (arith, h))
nonempty (v ∷ ws) n h = (v, ws, refl)

-- Three percentiles that are there, in their order, between two bounds.
abbrev pub InOrder : (lo hi : ℕ) → Option ℕ → Option ℕ → Option ℕ → Type 0
InOrder lo hi p50 p95 p99 =
    (a : ℕ) × (b : ℕ) × (c : ℕ) × (p50 ≡ some a)
    × (p95 ≡ some b)
    × (p99 ≡ some c)
    × (100 * lo ≤ a)
    × (a ≤ b)
    × (b ≤ c)
    × (c ≤ 100 * hi)

sorted-InOrder :
    (lo hi : ℕ) (vs : List ℕ) (n : ℕ)
    → length vs ≡ suc n
    → IsSorted vs
    → All (λ w. (lo ≤ w) × (w ≤ hi)) vs
    → InOrder lo hi (percentile vs 50) (percentile vs 95) (percentile vs 99)
unfolding percentile
sorted-InOrder lo hi [] n some_there h within = absurd (omega (arith, some_there))
sorted-InOrder lo hi (v ∷ vs) n some_there h within = (
  at_percent 50 v vs,
  at_percent 95 v vs,
  at_percent 99 v vs,
  refl,
  refl,
  refl,
  (at_percent_bounds v vs 50 lo hi h within (omega arith)).0,
  at_percent_mono v vs 50 95 h (omega arith) (omega arith),
  at_percent_mono v vs 95 99 h (omega arith) (omega arith),
  (at_percent_bounds v vs 99 lo hi h within (omega arith)).1,
)

length-elapsed : (samples : List Sample) → length (map (λ s. s.elapsed) samples) ≡ length samples
length-elapsed [] = refl
length-elapsed (s ∷ ss) = ap suc (length-elapsed ss)

-- A trial with a sample has its three percentiles, the median at most the 95th and that at most the
-- 99th, and they lie between any bounds of the times that the calls took.
pub compute_trial_stats-InOrder :
    (s : Sample) (ss : List Sample) (wall lo hi : ℕ)
    → All (λ x. (lo ≤ x.elapsed) × (x.elapsed ≤ hi)) (s ∷ ss)
    → InOrder lo hi
        (compute_trial_stats (s ∷ ss) wall).p50
        (compute_trial_stats (s ∷ ss) wall).p95
        (compute_trial_stats (s ∷ ss) wall).p99
unfolding compute_trial_stats
compute_trial_stats-InOrder s ss wall lo hi within =
    let times = map (λ (x : Sample). x.elapsed) (s ∷ ss) in
    sorted-InOrder lo hi (sorted times) (length ss) (length-sorted times ∙ length-elapsed (s ∷ ss))
      (sorted-IsSorted times)
      (sorted-All (λ w. (lo ≤ w) × (w ≤ hi)) times
        (All-elapsed (λ w. (lo ≤ w) × (w ≤ hi)) (s ∷ ss) within))

-- What a worker's samples count.
record Counted (calls : ℕ) (samples : List Sample) : Type 0 where
  pub one_each : length samples ≡ calls
  pub errors : count_of (λ s. s.is_error) samples ≤ calls
  pub timeouts : count_of (λ s. s.is_timeout) samples ≤ count_of (λ s. s.is_error) samples

abbrev CountedIn : ℕ → Outcome (List Sample) → Type 0
CountedIn calls (raised e) = Unit
CountedIn calls (ok samples) = Counted calls samples

-- A timeout is an error.
abbrev IsCoherent : Outcome Sample → Type 0
IsCoherent (raised e) = Unit
IsCoherent (ok s) = one_if s.is_timeout ≤ one_if s.is_error

one_if-le : (b : Bool) → one_if b ≤ 1
one_if-le true = omega arith
one_if-le false = omega arith

sample_of-IsCoherent : (elapsed : ℕ) (ended : Outcome Bool) → IsCoherent (sample_of elapsed ended)
sample_of-IsCoherent elapsed (ok is_error) = omega arith
sample_of-IsCoherent elapsed (raised timeout_error) = omega arith
sample_of-IsCoherent elapsed (raised (error reason)) = omega arith
sample_of-IsCoherent elapsed (raised cancelled_error) = tt

and_sample-CountedIn :
    (calls : ℕ) (first : Outcome Sample) (later : Outcome (List Sample))
    → IsCoherent first
    → CountedIn calls later
    → CountedIn (suc calls) (and_sample first later)
and_sample-CountedIn calls (raised e) later c h = tt
and_sample-CountedIn calls (ok s) (raised e) c h = tt
and_sample-CountedIn calls (ok s) (ok ss) c h = record {
  one_each = omega (arith, h.one_each);
  errors = omega (arith, h.errors, one_if-le s.is_error);
  timeouts = omega (arith, h.timeouts, c);
}

worker-CountedIn : (calls : List (ℕ × Outcome Bool)) → CountedIn (length calls) (worker calls)
unfolding worker
worker-CountedIn [] = record { one_each = refl; errors = omega arith; timeouts = omega arith }
worker-CountedIn ((elapsed, ended) ∷ calls) =
    and_sample-CountedIn (length calls) (sample_of elapsed ended) (worker calls)
      (sample_of-IsCoherent elapsed ended) (worker-CountedIn calls)

-- A worker that comes to the end of its calls has one sample for each of them, as many errors at most,
-- and no more timeouts than errors.
worker-Counted :
    (calls : List (ℕ × Outcome Bool)) (samples : List Sample)
    → worker calls ≡ ok samples
    → Counted (length calls) samples
worker-Counted calls samples e = rw e at (worker-CountedIn calls)
