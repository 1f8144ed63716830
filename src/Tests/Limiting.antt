-- ===== src/Tests/Limiting.antt =====
-- The limiters (sentinelmcp/gateway/limits.py) at small inputs.
use sentinel_mcp.Prelude.{◌≡◌, refl, false, List, [], ◌∷◌, arith}
use sentinel_mcp.Prelude.Int.{pos}
use sentinel_mcp.Prelude.Dict.{get}
use sentinel_mcp.Limits.TokenBucket.{TokenBucket, try_consume}
use sentinel_mcp.Limits.RateLimiter.{RateLimiter}
use sentinel_mcp.Limits.RateLimiter.Isolation.{
  Attempt, answers, own_answers, attempts_of, answers-own,
}
use sentinel_mcp.Limits.Concurrency.{count_of}
use sentinel_mcp.Limits.Concurrency.Holders.{
  Running, attempted, attempt, here, next, IsExact, Reach-IsExact,
}

-- Room for 3 tokens, one token for each unit of time.
abbrev bucket : TokenBucket
bucket = record { capacity = 3; refill_rate = 1; tokens = 0; last_refill = 10 }

refused : (try_consume bucket 2 11).1 ≡ false
unfolding try_consume
refused = refl

abbrev limiter : RateLimiter
limiter = record { capacity = pos 1; refill_rate = pos 1; buckets = [] }

abbrev attempts : List Attempt
attempts =
    record { principal = "alice"; created = 1; now = 1 }
    ∷ record { principal = "bob"; created = 1; now = 1 }
    ∷ record { principal = "alice"; created = 1; now = 1 }
    ∷ []

answers-own_example :
    answers 1 limiter attempts "alice"
    ≡ own_answers (pos 1) (pos 1) 1 (get "alice" []) (attempts_of "alice" attempts)
answers-own_example = answers-own 1 limiter attempts "alice"

abbrev idle : Running
idle = record { limiter = record { max_concurrent = 1; active = []; peak = [] }; holders = [] }

exact : IsExact 1 idle
unfolding count_of get
exact = record {
  ceiling = refl;
  counted = λ q. refl;
  below = λ q. omega arith;
  peaked = λ q. omega arith;
  peak_below = λ q. omega arith;
}

Reach-IsExact_example : IsExact 1 (attempted (attempted idle "alice") "alice")
Reach-IsExact_example =
    Reach-IsExact 1 exact
      (next (next here (attempt idle "alice")) (attempt (attempted idle "alice") "alice"))
