-- ===== src/Limits/RateLimiter/Grants.antt =====
-- How many of a principal's attempts `RateLimiter` of sentinelmcp/gateway/limits.py grants.
use sentinel_mcp.Prelude.{
  ℕ, zero, suc, ◌+◌, ◌-◌, ◌*◌, ◌≤◌, ◌≡◌, refl, ap, inl, inr, Bool, true, none, some, List, [], ◌∷◌,
  String, arith, Bool-cases,
}
use sentinel_mcp.Prelude.Int.{ℤ, pos}
use sentinel_mcp.Prelude.Dict.{get}
use sentinel_mcp.Exec.{Outcome, ok}
use sentinel_mcp.Limits.TokenBucket
use sentinel_mcp.Limits.TokenBucket.{TokenBucket, try_consume}
use sentinel_mcp.Limits.TokenBucket.Bounds.{serve, IsMonotone, last, serve-le}
use sentinel_mcp.Limits.RateLimiter.{RateLimiter}
use sentinel_mcp.Limits.RateLimiter.Isolation.{
  Attempt, own_answers, attempts_of, answers, answers-own,
}

abbrev pub granted_by : Outcome Bool → ℕ
granted_by (ok true) = 1
granted_by _ = 0

-- How many of the answers are grants.
abbrev pub granted_in : List (Outcome Bool) → ℕ
granted_in [] = 0
granted_in (o ∷ os) = granted_in os + granted_by o

abbrev pub times_of : List Attempt → List ℕ
times_of [] = []
times_of (a ∷ rest) = a.now ∷ times_of rest

module _ (token : ℕ) where
  granted-served :
      (capacity rate : ℤ) (b : TokenBucket) (attempts : List Attempt)
      → granted_in (own_answers capacity rate token (some b) attempts)
        ≡ (serve b token (times_of attempts)).1
  unfolding own_answers serve
  granted-served capacity rate b [] = refl
  granted-served capacity rate b (a ∷ rest) =
      let ih = granted-served capacity rate (try_consume b token a.now).0 rest in
      elim (Bool-cases (try_consume b token a.now).1) [
        | inl e ↦ rw e (omega (arith, ih))
        | inr e ↦ rw e (omega (arith, ih))
      ]

  no_capacity :
      (rate : ℤ) (attempts : List Attempt)
      → granted_in (own_answers (pos zero) rate token none attempts) ≡ 0
  unfolding own_answers TokenBucket.create
  no_capacity rate [] = refl
  no_capacity rate (a ∷ rest) = omega (arith, no_capacity rate rest)

  no_rate :
      (c : ℕ) (attempts : List Attempt)
      → granted_in (own_answers (pos c) (pos zero) token none attempts) ≡ 0
  unfolding own_answers TokenBucket.create
  no_rate c [] = refl
  no_rate zero (a ∷ rest) = omega (arith, no_rate zero rest)
  no_rate (suc c) (a ∷ rest) = omega (arith, no_rate (suc c) rest)

  -- A bucket that was just created.
  abbrev full : ℕ → ℕ → Attempt → TokenBucket
  full c r a = record {
    capacity = suc c;
    refill_rate = suc r;
    tokens = suc c;
    last_refill = a.created;
  }

  own-le :
      (c r : ℕ) (a : Attempt) (rest : List Attempt)
      → IsMonotone a.now (times_of rest)
      → granted_in (own_answers (pos c) (pos r) token none (a ∷ rest)) * token
        ≤ c + (last a.now (times_of rest) - a.now) * r
  unfolding own_answers TokenBucket.create
  own-le zero r a rest h = omega (arith, ap (λ n. n * token) (no_capacity (pos r) (a ∷ rest)))
  own-le (suc c) zero a rest h = omega (arith, ap (λ n. n * token) (no_rate (suc c) (a ∷ rest)))
  own-le (suc c) (suc r) a rest h = omega (
    arith,
    ap (λ n. n * token) (granted-served (pos (suc c)) (pos (suc r)) (full c r a) (a ∷ rest)),
    serve-le (full c r a) token a.now (times_of rest) h,
  )

-- Of the attempts that a principal makes at a limiter that did not know it, at times that do not go
-- back, the grants are at most the capacity and what flows in from its first attempt to its last,
-- whatever the other principals do in between.
pub granted-le :
    (token c r : ℕ) (limiter : RateLimiter) (attempts : List Attempt) (p : String) (a : Attempt)
    (rest : List Attempt)
    → limiter.capacity ≡ pos c
    → limiter.refill_rate ≡ pos r
    → get p limiter.buckets ≡ none
    → attempts_of p attempts ≡ a ∷ rest
    → IsMonotone a.now (times_of rest)
    → granted_in (answers token limiter attempts p) * token
      ≤ c + (last a.now (times_of rest) - a.now) * r
granted-le token c r limiter attempts p a rest capacity rate new own h =
    rw (answers-own token limiter attempts p, capacity, rate, new, own) (own-le token c r a rest h)
