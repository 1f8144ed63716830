-- ===== src/Bridge/CallTool/Slots.antt =====
-- What an attempt of `handle_call_tool` (sentinelmcp/gateway/bridge.py) does to the limiters.
use sentinel_mcp.Prelude.{ℕ, ◌≡◌, refl, ap, ◌∙◌, true, false, String, arith}
use sentinel_mcp.Json.{Fields}
use sentinel_mcp.Exec.{Exn}
use sentinel_mcp.Limits.RateLimiter
use sentinel_mcp.Limits.RateLimiter.{RateLimiter}
use sentinel_mcp.Limits.Concurrency
use sentinel_mcp.Limits.Concurrency.{ConcurrencyLimiter, active_count}
use sentinel_mcp.Limits.Concurrency.Holders.{active-try_acquire, active-release}
use sentinel_mcp.Audit.Record.{AuditOutcome}
use sentinel_mcp.Bridge.Results.{CallToolResult}
use sentinel_mcp.Bridge.State.{Gateway, Runtime, Config, Surroundings, Locals}
use sentinel_mcp.Bridge.Cache
use sentinel_mcp.Bridge.Cache.Laws.{concurrency-get, rate_limiter-get}
use sentinel_mcp.Bridge.CallTool.{attempt}
use sentinel_mcp.Bridge.CallTool.Exits
use sentinel_mcp.Bridge.CallTool.Endings.{Ending, stopped, turned_down, carried_out, attempt-Ending}

-- A slot that was taken and given back, and one that was refused, leave every count as it was.
active-acquire_release :
    (l : ConcurrencyLimiter) (p q : String)
    → (Concurrency.try_acquire l p).1 ≡ true
    → active_count (Concurrency.release (Concurrency.try_acquire l p).0 p) q ≡ active_count l q
active-acquire_release l p q taken =
    ground (arith, active-release (Concurrency.try_acquire l p).0 p q, active-try_acquire l p q)

active-refused :
    (l : ConcurrencyLimiter) (p q : String)
    → (Concurrency.try_acquire l p).1 ≡ false
    → active_count (Concurrency.try_acquire l p).0 q ≡ active_count l q
active-refused l p q refused = ground (arith, active-try_acquire l p q)

module _ (rt : Runtime) (config : Config) (s : Surroundings) (principal tool_name : String)
    (arguments : Fields) (g : Gateway) where
  abbrev after : Gateway
  after = (attempt rt config s principal tool_name arguments g).1

  abbrev limited : Gateway
  limited = Exits.limited_gateway rt config s principal tool_name arguments g

  abbrev Crash : Exn → Gateway → Locals → Type 0
  Crash = Exits.Crash rt config s principal tool_name arguments g

  abbrev Rejection : AuditOutcome → CallToolResult → Gateway → Locals → Type 0
  Rejection = Exits.Rejection rt config s principal tool_name arguments g

  abbrev ending : Ending rt config s principal tool_name arguments g after
  ending = attempt-Ending rt config s principal tool_name arguments g

  listing-active :
      (q : String)
      → active_count (Cache.get s.lock_wait s.listed limited).1.concurrency_limiter q
        ≡ active_count g.concurrency_limiter q
  listing-active q = rw (concurrency-get s.lock_wait s.listed limited) refl

  Crash-active :
      {e : Exn} {gx : Gateway} {l : Locals} (q : String)
      → Crash e gx l
      → active_count gx.concurrency_limiter q ≡ active_count g.concurrency_limiter q
  Crash-active q (Exits.limiter_failed broken) = refl
  Crash-active q (Exits.listing_failed rule granted resolved broken) = listing-active q

  Rejection-active :
      {out : AuditOutcome} {result : CallToolResult} {gx : Gateway} {l : Locals} (q : String)
      → Rejection out result gx l
      → active_count gx.concurrency_limiter q ≡ active_count g.concurrency_limiter q
  Rejection-active q (Exits.limited e) = refl
  Rejection-active q (Exits.no_rule granted e) = refl
  Rejection-active q (Exits.no_tool rule tools listed e) = listing-active q
  Rejection-active q (Exits.bad_schema rule tools tool reason listed found e) = listing-active q
  Rejection-active q (Exits.bad_arguments rule violation sch e) = listing-active q
  Rejection-active q (Exits.busy rule sch sat full) =
      active-refused _ principal q full ∙ listing-active q

  abbrev active_of : String → Gateway → ℕ
  active_of q x = active_count x.concurrency_limiter q

  -- However an attempt ends, by a result, an exception or a cancellation at any stage, and whatever the
  -- audit writes do, every principal's count of active executions is afterwards what it was before.
  pub active-attempt :
      (q : String)
      → active_count (attempt rt config s principal tool_name arguments g).1.concurrency_limiter q
        ≡ active_count g.concurrency_limiter q
  active-attempt q = elim ending [
    | stopped e gx l crash same ↦ ap (active_of q) same ∙ Crash-active q crash
    | turned_down out result gx l rejection same ↦
        ap (active_of q) same ∙ Rejection-active q rejection
    | carried_out c same ↦
        ap (active_of q) same ∙ active-acquire_release _ principal q c.slotted ∙ listing-active q
  ]

  abbrev limiter_of : Gateway → RateLimiter
  limiter_of x = x.rate_limiter

  Rejection-limiter :
      {out : AuditOutcome} {result : CallToolResult} {gx : Gateway} {l : Locals}
      → Rejection out result gx l
      → gx.rate_limiter ≡ limited.rate_limiter
  Rejection-limiter (Exits.limited e) = refl
  Rejection-limiter (Exits.no_rule granted e) = refl
  Rejection-limiter (Exits.no_tool rule tools listed e) =
      rate_limiter-get s.lock_wait s.listed limited
  Rejection-limiter (Exits.bad_schema rule tools tool reason listed found e) =
      rate_limiter-get s.lock_wait s.listed limited
  Rejection-limiter (Exits.bad_arguments rule violation sch e) =
      rate_limiter-get s.lock_wait s.listed limited
  Rejection-limiter (Exits.busy rule sch sat full) = rate_limiter-get s.lock_wait s.listed limited

  -- Every attempt asks the rate limiter exactly once, for its principal: one that is denied, rejected or
  -- fails later has consumed its token all the same.
  pub rate_limiter-attempt :
      (attempt rt config s principal tool_name arguments g).1.rate_limiter
      ≡ (RateLimiter.try_acquire config.token g.rate_limiter principal s.created s.now).0
  rate_limiter-attempt = elim ending [
    | stopped e gx l (Exits.limiter_failed broken) same ↦ ap limiter_of same
    | stopped e gx l (Exits.listing_failed rule granted resolved broken) same ↦
        ap limiter_of same ∙ rate_limiter-get s.lock_wait s.listed limited
    | turned_down out result gx l rejection same ↦ ap limiter_of same ∙ Rejection-limiter rejection
    | carried_out c same ↦ ap limiter_of same ∙ rate_limiter-get s.lock_wait s.listed limited
  ]
