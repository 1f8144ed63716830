-- ===== src/Bridge/Runs.antt =====
-- Many attempts of `handle_call_tool` (sentinelmcp/gateway/bridge.py) at one gateway, one after the
-- other.
use sentinel_mcp.Prelude.{
  ℕ, ◌+◌, ◌-◌, ◌*◌, ◌≤◌, ◌≡◌, ap, ◌∙◌, inl, inr, none, List, [], ◌∷◌, String, arith, map, length,
  length-append, All, str_eq, if◌then◌else◌, Bool-cases,
}
use sentinel_mcp.Prelude.Int.{pos}
use sentinel_mcp.Prelude.Dict.{get}
use sentinel_mcp.Limits.RateLimiter
use sentinel_mcp.Limits.TokenBucket.Bounds.{IsMonotone, last}
use sentinel_mcp.Limits.RateLimiter.Isolation.{Attempt, attempts_of, answers}
use sentinel_mcp.Limits.RateLimiter.Grants.{granted_by, granted_in, times_of, granted-le}
use sentinel_mcp.Bridge.State.{Request, Gateway, Runtime, Config}
use sentinel_mcp.Bridge.CallTool.{attempt}
use sentinel_mcp.Bridge.CallTool.Auditing.{attempt-Told}
use sentinel_mcp.Bridge.CallTool.Slots.{rate_limiter-attempt}
use sentinel_mcp.Bridge.CallTool.Forwarding.{forwarded-attempt}

-- The rate limiter's view of a request.
abbrev pub attempt_of : Request → Attempt
attempt_of r = record {
  principal = r.principal;
  created = r.surroundings.created;
  now = r.surroundings.now;
}

-- No audit write of the request fails.
abbrev pub WritesAll : Request → Type 0
WritesAll r = r.surroundings.disk ≡ []

pub times_le : (t : ℕ) {m n k : ℕ} → m ≤ n → n * t ≤ k → m * t ≤ k
times_le t {m} {n} {k} h j = grind arith

module _ (rt : Runtime) (config : Config) where
  abbrev pub step : Gateway → Request → Gateway
  step g r = (attempt rt config r.surroundings r.principal r.tool_name r.arguments g).1

  pub run : Gateway → List Request → Gateway
  run g [] = g
  run g (r ∷ rs) = run (step g r) rs

  length-log-step :
      (g : Gateway) (r : Request) → WritesAll r → length (step g r).log ≡ length g.log + 1
  length-log-step g r fine =
      let (attempted, said, told) =
        attempt-Told rt config r.surroundings r.principal r.tool_name r.arguments g fine in
      ap length told.appended ∙ length-append g.log _

  -- Where no audit write fails, a run of attempts writes one record for each of them.
  length-log-run :
      (g : Gateway) (rs : List Request)
      → All WritesAll rs
      → length (run g rs).log ≡ length g.log + length rs
  unfolding run
  length-log-run g [] h = omega arith
  length-log-run g (r ∷ rs) (fine, h) =
      omega (arith, length-log-step g r fine, length-log-run (step g r) rs h)

  -- How many calls of one principal a run forwards to the upstream.
  forwarded_for : String → Gateway → List Request → ℕ
  forwarded_for p g [] = 0
  forwarded_for p g (r ∷ rs) =
      let later = forwarded_for p (step g r) rs in
      if str_eq r.principal p
      then later + (length (step g r).forwarded - length g.forwarded)
      else later

  forwarded-step :
      (g : Gateway) (r : Request)
      → length (step g r).forwarded - length g.forwarded
        ≤ granted_by
            (RateLimiter.try_acquire config.token g.rate_limiter r.principal r.surroundings.created
              r.surroundings.now).1
  forwarded-step g r =
      elim (forwarded-attempt rt config r.surroundings r.principal r.tool_name r.arguments g) [
        | inl (m, once) ↦
            rw (once, m.0.granted)
              (omega (arith, length-append g.forwarded ((r.tool_name, r.arguments) ∷ [])))
        | inr (not_permitted, nothing) ↦ rw nothing (omega arith)
      ]

  forwarded_for-granted :
      (p : String) (g : Gateway) (rs : List Request)
      → forwarded_for p g rs
        ≤ granted_in (answers config.token g.rate_limiter (map attempt_of rs) p)
  unfolding forwarded_for answers
  forwarded_for-granted p g [] = omega arith
  forwarded_for-granted p g (r ∷ rs) =
      let later =
        rw (rate_limiter-attempt rt config r.surroundings r.principal r.tool_name r.arguments g) at
          (forwarded_for-granted p (step g r) rs) in
      let now = forwarded-step g r in
      elim (Bool-cases (str_eq r.principal p)) [
        | inl e ↦ rw e (omega (arith, later, now))
        | inr e ↦ rw e later
      ]

  -- From a gateway that did not know the principal, over its requests at times that do not go back:
  -- the calls that are forwarded for it, counted in tokens, are at most the capacity and what flows in
  -- from its first request to its last, whatever the other principals send in between.
  forwarded_for-le :
      (c r : ℕ) (g : Gateway) (rs : List Request) (p : String) (a : Attempt) (rest : List Attempt)
      → g.rate_limiter.capacity ≡ pos c
      → g.rate_limiter.refill_rate ≡ pos r
      → get p g.rate_limiter.buckets ≡ none
      → attempts_of p (map attempt_of rs) ≡ a ∷ rest
      → IsMonotone a.now (times_of rest)
      → forwarded_for p g rs * config.token ≤ c + (last a.now (times_of rest) - a.now) * r
  forwarded_for-le c r g rs p a rest capacity rate new own h =
      times_le config.token (forwarded_for-granted p g rs) (
        granted-le config.token c r g.rate_limiter (map attempt_of rs) p a rest capacity rate new
          own h)
