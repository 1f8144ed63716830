-- ===== src/Bridge/Flight/Rates.antt =====
-- The rate limiter (sentinelmcp/gateway/limits.py) among the calls in flight at one gateway.
use sentinel_mcp.Prelude.{
  ℕ, ◌+◌, ◌-◌, ◌*◌, ◌≤◌, ◌≡◌, refl, sym, ap, ◌∙◌, inl, inr, true, false, none, List, [], ◌∷◌, ◌++◌,
  String, arith, str_eq, if◌then◌else◌, Bool-cases, total, total-middle, total-append,
}
use sentinel_mcp.Prelude.Int.{pos}
use sentinel_mcp.Prelude.Dict.{get}
use sentinel_mcp.Limits.RateLimiter
use sentinel_mcp.Limits.RateLimiter.{RateLimiter}
use sentinel_mcp.Limits.TokenBucket.Bounds.{IsMonotone, last}
use sentinel_mcp.Limits.RateLimiter.Isolation.{Attempt, attempts_of, answers}
use sentinel_mcp.Limits.RateLimiter.Grants.{granted_in, times_of, granted-le}
use sentinel_mcp.Bridge.State.{Runtime, Config, Request}
use sentinel_mcp.Bridge.Runs.{times_le}
use sentinel_mcp.Bridge.Flight.{Shared, Point, ready}
use sentinel_mcp.Bridge.Flight.Inquiry.Proceeding.{proceed-Proceeds, Proceeds-Leaves}
use sentinel_mcp.Bridge.Flight.Tokens.{
  hopes, entry, sent, grant, limiter_after, Tokens, advance-Tokens,
}
use sentinel_mcp.Bridge.Flight.World.{
  Task, World, newcomer, arrive, move, ask, list, Reach, here, next,
}

-- The limiter after some attempts.
unfoldable after : ℕ → RateLimiter → List Attempt → RateLimiter
after token limiter [] = limiter
after token limiter (a ∷ rest) =
    after token (RateLimiter.try_acquire token limiter a.principal a.created a.now).0 rest

-- How many tokens some attempts get for a principal.
abbrev granted_to : String → ℕ → RateLimiter → List Attempt → ℕ
granted_to q token limiter attempts = granted_in (answers token limiter attempts q)

after-append :
    (token : ℕ) (limiter : RateLimiter) (xs ys : List Attempt)
    → after token limiter (xs ++ ys) ≡ after token (after token limiter xs) ys
unfolding after
after-append token limiter [] ys = refl
after-append token limiter (a ∷ xs) ys =
    after-append token (RateLimiter.try_acquire token limiter a.principal a.created a.now).0 xs ys

granted_to-append :
    (q : String) (token : ℕ) (limiter : RateLimiter) (xs ys : List Attempt)
    → granted_to q token limiter (xs ++ ys)
      ≡ granted_to q token limiter xs + granted_to q token (after token limiter xs) ys
unfolding after answers
granted_to-append q token limiter [] ys = omega arith
granted_to-append q token limiter (a ∷ xs) ys =
    let rest =
      granted_to-append q token
        (RateLimiter.try_acquire token limiter a.principal a.created a.now).0 xs ys in
    elim (Bool-cases (str_eq a.principal q)) [
      | inl e ↦ rw e (omega (arith, rest))
      | inr e ↦ rw e rest
    ]

-- The calls of a principal that hold a token and may still be forwarded.
abbrev hopes_of : String → Request → Point → ℕ
hopes_of q r p = if str_eq r.principal q then hopes p else 0

abbrev hoping : String → List Task → ℕ
hoping q = total (λ t. hopes_of q t.request t.point)

-- What a step forwards, if it is the principal's.
abbrev sent_for : String → Request → Shared → Shared → ℕ
sent_for q r sh sh' = if str_eq r.principal q then sent sh' - sent sh else 0

module _ (rt : Runtime) (config : Config) where
  abbrev token : ℕ
  token = config.token

  -- The attempts that a run makes at the rate limiter, in their order: a task makes one with its first
  -- step, whenever its request arrived.
  unfoldable pub entries : {w : World} {u : World} → Reach rt config w u → List Attempt
  entries here = []
  entries (next reached (arrive r)) = entries reached
  entries (next reached (ask i)) = entries reached
  entries (next reached (list before l after s sh split step)) = entries reached
  entries (next reached (move before t after p sh split step)) =
      entries reached ++ entry t.request t.point

  -- How many calls of one principal a run forwards to the upstream.
  unfoldable pub forwarded_for : String → {w : World} {u : World} → Reach rt config w u → ℕ
  forwarded_for q here = 0
  forwarded_for q (next reached (arrive r)) = forwarded_for q reached
  forwarded_for q (next reached (ask i)) = forwarded_for q reached
  forwarded_for q (next reached (list before l after s sh split step)) = forwarded_for q reached
  forwarded_for q (next {u} reached (move before t after p sh split step)) =
      forwarded_for q reached + sent_for q t.request u.shared sh

  limiter_after-entry :
      (r : Request) (p : Point) (limiter : RateLimiter)
      → limiter_after rt config r p limiter ≡ after token limiter (entry r p)
  unfolding after
  limiter_after-entry r ready limiter = refl
  limiter_after-entry r _ limiter = refl

  grant-entry :
      (q : String) (r : Request) (p : Point) (limiter : RateLimiter)
      → str_eq r.principal q ≡ true
      → grant rt config r p limiter ≡ granted_to q token limiter (entry r p)
  unfolding answers
  grant-entry q r ready limiter own = rw own (omega arith)
  grant-entry q r _ limiter own = refl

  foreign-entry :
      (q : String) (r : Request) (p : Point) (limiter : RateLimiter)
      → str_eq r.principal q ≡ false
      → granted_to q token limiter (entry r p) ≡ 0
  unfolding answers
  foreign-entry q r ready limiter other = rw other refl
  foreign-entry q r _ limiter other = refl

  -- A step forwards for the principal, or may still do so, only on a token that the principal got.
  sent_for-le :
      (q : String) (r : Request) (p p' : Point) (sh sh' : Shared)
      → Tokens rt config r p sh p' sh'
      → sent_for q r sh sh' + hopes_of q r p'
        ≤ hopes_of q r p + granted_to q token sh.gateway.rate_limiter (entry r p)
  sent_for-le q r p p' sh sh' tokens = elim (Bool-cases (str_eq r.principal q)) [
    | inl own ↦ ground (arith, tokens.backed, own, grant-entry q r p sh.gateway.rate_limiter own)
    | inr other ↦ ground (arith, other)
  ]

  module _ (q : String) where
    -- Along a run from `w`: the limiter has had the attempts of the run, and the principal has had no
    -- more calls forwarded than it got tokens.
    record IsPaid {w : World} {u : World} (reached : Reach rt config w u) : Type 0 where
      pub limiter :
          u.shared.gateway.rate_limiter
          ≡ after token w.shared.gateway.rate_limiter (entries reached)
      pub paid :
          forwarded_for q reached + hoping q u.tasks
          ≤ granted_to q token w.shared.gateway.rate_limiter (entries reached) + hoping q w.tasks

    hoping-middle :
        (before : List Task) (t : Task) (after_it : List Task)
        → hoping q (before ++ t ∷ after_it)
          ≡ hoping q (before ++ after_it) + hopes_of q t.request t.point
    hoping-middle before t after_it =
        total-middle (λ (x : Task). hopes_of q x.request x.point) before t after_it

    run-IsPaid : {w : World} {u : World} (reached : Reach rt config w u) → IsPaid reached
    unfolding entries forwarded_for after answers
    run-IsPaid here = record { limiter = refl; paid = omega arith }
    run-IsPaid (next {u} reached (arrive r)) =
        let h = run-IsPaid reached in
        record {
          limiter = h.limiter;
          paid = ground (
            arith,
            h.paid,
            total-append (λ (x : Task). hopes_of q x.request x.point) u.tasks (newcomer r ∷ []),
          );
        }
    run-IsPaid (next reached (ask i)) =
        let h = run-IsPaid reached in record { limiter = h.limiter; paid = h.paid }
    run-IsPaid (next {u} reached (list before l after_it s sh split step)) =
        let h = run-IsPaid reached in
        let kept =
          Proceeds-Leaves config.policy l.inquiry
            (proceed-Proceeds config.policy l.inquiry l.stage s u.shared sh step) in
        record { limiter = kept.same_rates ∙ h.limiter; paid = h.paid }
    run-IsPaid {w} (next {u} reached (move before t after_it p sh split step)) =
        let h = run-IsPaid reached in
        let tokens = advance-Tokens rt config t.request t.point p u.shared sh step in
        let first = w.shared.gateway.rate_limiter in
        let had = entries reached in
        let new = entry t.request t.point in
        record {
          limiter =
              tokens.limiter
              ∙ limiter_after-entry t.request t.point u.shared.gateway.rate_limiter
              ∙ ap (λ (x : RateLimiter). after token x new) h.limiter
              ∙ sym (after-append token first had new);
          paid = omega (
            arith,
            h.paid,
            sent_for-le q t.request t.point p u.shared sh tokens,
            ap (λ (x : RateLimiter). granted_to q token x new) h.limiter,
            granted_to-append q token first had new,
            ap (hoping q) split,
            hoping-middle before t after_it,
            hoping-middle before (record t { point = p }) after_it,
          );
        }

  -- From a gateway without tasks that did not know the principal, however the requests arrive and their
  -- steps interleave, if the readings of the clock do not go back: the calls that are forwarded for the
  -- principal, counted in tokens, are at most the capacity and what flows in from its first attempt to
  -- its last.
  pub forwarded_for-le :
      (c r : ℕ) (w u : World) (q : String) (a : Attempt) (rest : List Attempt)
      (reached : Reach rt config w u)
      → w.tasks ≡ []
      → w.shared.gateway.rate_limiter.capacity ≡ pos c
      → w.shared.gateway.rate_limiter.refill_rate ≡ pos r
      → get q w.shared.gateway.rate_limiter.buckets ≡ none
      → attempts_of q (entries reached) ≡ a ∷ rest
      → IsMonotone a.now (times_of rest)
      → forwarded_for q reached * config.token ≤ c + (last a.now (times_of rest) - a.now) * r
  forwarded_for-le c r w u q a rest reached no_tasks capacity rate new own h =
      times_le config.token (omega (arith, (run-IsPaid q reached).paid, ap (hoping q) no_tasks)) (
        granted-le config.token c r w.shared.gateway.rate_limiter (entries reached) q a rest
          capacity rate new own h)
