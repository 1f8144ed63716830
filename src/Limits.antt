-- ===== src/Limits.antt =====
-- sentinelmcp/gateway/limits.py: per-principal rate limiting and concurrency control. An `asyncio.Lock`
-- whose block has no `await` in it is never contended, so each method below is one atomic step.
--
-- Time and tokens are whole numbers of units small enough to represent the configured values, and
-- `token` is one token in those units: the arithmetic is exact, where the program rounds to binary64.
pub mod TokenBucket
pub mod RateLimiter
pub mod Concurrency
