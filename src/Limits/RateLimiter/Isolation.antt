-- ===== src/Limits/RateLimiter/Isolation.antt =====
-- The buckets of `RateLimiter`, in sentinelmcp/gateway/limits.py, beside each other.
use sentinel_mcp.Prelude.{
  ℕ, ◌≡◌, ◌≢◌, refl, Bool, Option, none, some, List, [], ◌∷◌, String, arith, eq_iff, eq_refl,
  str_eq, if◌then◌else◌, str-cases, inl, inr, Option-cases,
}
use sentinel_mcp.Prelude.Int.{ℤ}
use sentinel_mcp.Prelude.Dict.{get, put, get-put}
use sentinel_mcp.Exec.{Outcome, ok, raised, Outcome-cases}
use sentinel_mcp.Limits.TokenBucket
use sentinel_mcp.Limits.TokenBucket.{TokenBucket, try_consume}
use sentinel_mcp.Limits.RateLimiter.{RateLimiter, store_bucket, try_acquire}

-- An attempt of a principal, with the clock's readings.
pub record Attempt : Type 0 where
  pub principal : String
  pub created : ℕ
  pub now : ℕ

-- A lone principal: its bucket, if it has one, and the answer to one more attempt.
abbrev consume_own : ℕ → ℕ → Outcome TokenBucket → Option TokenBucket × Outcome Bool
consume_own token now (raised e) = (none, raised e)
consume_own token now (ok bucket) =
    (some (try_consume bucket token now).0, ok (try_consume bucket token now).1)

abbrev own_bucket : (capacity rate : ℤ) → ℕ → Option TokenBucket → Outcome TokenBucket
own_bucket capacity rate created none = TokenBucket.create capacity rate created
own_bucket capacity rate created (some bucket) = ok bucket

abbrev pub attempt_own :
    (capacity rate : ℤ) (token : ℕ)
    → Option TokenBucket
    → Attempt
    → Option TokenBucket × Outcome Bool
attempt_own capacity rate token own a =
    consume_own token a.now (own_bucket capacity rate a.created own)

-- The answers to a lone principal's attempts.
unfoldable pub own_answers :
    (capacity rate : ℤ) (token : ℕ) → Option TokenBucket → List Attempt → List (Outcome Bool)
own_answers capacity rate token own [] = []
own_answers capacity rate token own (a ∷ rest) =
    (attempt_own capacity rate token own a).1
    ∷ own_answers capacity rate token (attempt_own capacity rate token own a).0 rest

-- The attempts of one principal.
unfoldable pub attempts_of : String → List Attempt → List Attempt
attempts_of p [] = []
attempts_of p (a ∷ rest) =
    let others = attempts_of p rest in if str_eq a.principal p then a ∷ others else others

abbrev acquire : ℕ → RateLimiter → Attempt → RateLimiter × Outcome Bool
acquire token limiter a = try_acquire token limiter a.principal a.created a.now

-- The answers that the limiter gives to one principal, when every principal makes its attempts.
unfoldable pub answers : ℕ → RateLimiter → List Attempt → String → List (Outcome Bool)
answers token limiter [] p = []
answers token limiter (a ∷ rest) p =
    let later = answers token (acquire token limiter a).0 rest p in
    if str_eq a.principal p then (acquire token limiter a).1 ∷ later else later

module _ (token : ℕ) (limiter : RateLimiter) (a : Attempt) where
  abbrev created : Outcome TokenBucket
  created = TokenBucket.create limiter.capacity limiter.refill_rate a.created

  answer-acquire :
      (acquire token limiter a).1
      ≡ (attempt_own limiter.capacity limiter.refill_rate token
          (get a.principal limiter.buckets)
          a).1
  unfolding try_acquire
  answer-acquire = ground arith

  bucket-acquire :
      get a.principal (acquire token limiter a).0.buckets
      ≡ (attempt_own limiter.capacity limiter.refill_rate token
          (get a.principal limiter.buckets)
          a).0
  unfolding try_acquire store_bucket
  bucket-acquire = elim (Option-cases (get a.principal limiter.buckets)) [
    | inr (bucket, found) ↦ ground (
      arith,
      get-put a.principal a.principal (try_consume bucket token a.now).0 limiter.buckets,
      eq_refl a.principal,
    )
    | inl missing ↦ elim (Outcome-cases created) [
      | inl (bucket, made) ↦ ground (
        arith,
        get-put a.principal a.principal (try_consume bucket token a.now).0
            (put a.principal bucket limiter.buckets),
        eq_refl a.principal,
      )
      | inr (e, failed) ↦ ground arith
    ]
  ]

  bucket-acquire_ne :
      (p : String)
      → a.principal ≢ p
      → get p (acquire token limiter a).0.buckets ≡ get p limiter.buckets
  unfolding try_acquire store_bucket
  bucket-acquire_ne p other = elim (Option-cases (get a.principal limiter.buckets)) [
    | inr (bucket, found) ↦ ground (
      arith,
      get-put a.principal p (try_consume bucket token a.now).0 limiter.buckets,
      eq_iff a.principal p,
    )
    | inl missing ↦ elim (Outcome-cases created) [
      | inl (bucket, made) ↦ ground (
        arith,
        get-put a.principal p (try_consume bucket token a.now).0
            (put a.principal bucket limiter.buckets),
        get-put a.principal p bucket limiter.buckets,
        eq_iff a.principal p,
      )
      | inr (e, failed) ↦ ground arith
    ]
  ]

  capacity-acquire : (acquire token limiter a).0.capacity ≡ limiter.capacity
  unfolding try_acquire
  capacity-acquire = ground arith

  refill_rate-acquire : (acquire token limiter a).0.refill_rate ≡ limiter.refill_rate
  unfolding try_acquire
  refill_rate-acquire = ground arith

-- The answers given to a principal are those that its own attempts would have got from a limiter of
-- its own, whatever the other principals do in between.
pub answers-own :
    (token : ℕ) (limiter : RateLimiter) (attempts : List Attempt) (p : String)
    → answers token limiter attempts p
      ≡ own_answers limiter.capacity limiter.refill_rate token
          (get p limiter.buckets)
          (attempts_of p attempts)
unfolding answers own_answers attempts_of
answers-own token limiter [] p = refl
answers-own token limiter (a ∷ rest) p =
    let ih =
      rw (capacity-acquire token limiter a, refill_rate-acquire token limiter a) at
        (answers-own token (acquire token limiter a).0 rest p) in
    elim (str-cases a.principal p) [
      | inl (test, same) ↦
          rw test (cc (same, answer-acquire token limiter a, bucket-acquire token limiter a, ih))
      | inr (test, differ) ↦ rw (test, ← bucket-acquire_ne token limiter a p differ) ih
    ]
