-- ===== src/Limits/RateLimiter.antt =====
-- `RateLimiter` of sentinelmcp/gateway/limits.py: a bucket for each principal, created on first use. A
-- first use reads the clock twice, `created` for the new bucket and `now` for the attempt.
pub mod Isolation
pub mod Grants
use sentinel_mcp.Prelude.{ℕ, Bool, none, some, String, []}
use sentinel_mcp.Prelude.Int.{ℤ}
use sentinel_mcp.Prelude.Dict.{Dict, get, put}
use sentinel_mcp.Exec.{Outcome, ok, raised}
use sentinel_mcp.Limits.TokenBucket
use sentinel_mcp.Limits.TokenBucket.{TokenBucket, try_consume}

pub record RateLimiter : Type 0 where
  pub capacity : ℤ
  pub refill_rate : ℤ
  pub buckets : Dict TokenBucket

-- __init__ checks nothing: a bad configuration shows when the first bucket is created.
abbrev pub create : ℤ → ℤ → RateLimiter
create capacity refill_rate = record {
  capacity = capacity;
  refill_rate = refill_rate;
  buckets = [];
}

-- A bucket that was just created is stored in the dict.
store_bucket : RateLimiter → String → Outcome TokenBucket → RateLimiter × Outcome TokenBucket
store_bucket limiter principal (ok bucket) =
    (record limiter { buckets = put principal bucket limiter.buckets }, ok bucket)
store_bucket limiter principal (raised e) = (limiter, raised e)

pub bucket_for : RateLimiter → String → ℕ → RateLimiter × Outcome TokenBucket
unfolding store_bucket
bucket_for limiter principal created = elim (get principal limiter.buckets) [
  | none ↦
      store_bucket limiter principal
        (TokenBucket.create limiter.capacity limiter.refill_rate created)
  | some bucket ↦ (limiter, ok bucket)
]

-- The bucket of the dict is the object that `try_consume` updates.
consume_from : ℕ → RateLimiter → String → ℕ → Outcome TokenBucket → RateLimiter × Outcome Bool
consume_from token limiter principal now (raised e) = (limiter, raised e)
consume_from token limiter principal now (ok bucket) =
    let (bucket', granted) = try_consume bucket token now in
    (record limiter { buckets = put principal bucket' limiter.buckets }, ok granted)

unfoldable pub try_acquire :
    (token : ℕ) → RateLimiter → String → (created now : ℕ) → RateLimiter × Outcome Bool
unfolding bucket_for consume_from
try_acquire token limiter principal created now =
    let (limiter', found) = bucket_for limiter principal created in
    consume_from token limiter' principal now found
