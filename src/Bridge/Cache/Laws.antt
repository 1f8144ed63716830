-- ===== src/Bridge/Cache/Laws.antt =====
-- What `UpstreamToolCache.get` of sentinelmcp/gateway/bridge.py does to the gateway.
use sentinel_mcp.Prelude.{◌+◌, ◌≡◌, List, arith}
use sentinel_mcp.Exec.{Outcome, ok}
use sentinel_mcp.Bridge.State.{Tool, Gateway}
use sentinel_mcp.Bridge.Cache.{get, invalidate}

module _ (lock_wait : Outcome (Unit {0})) (listed : Outcome (List Tool)) (g : Gateway) where
  pub concurrency-get : (get lock_wait listed g).1.concurrency_limiter ≡ g.concurrency_limiter
  unfolding get
  concurrency-get = ground arith

  pub forwarded-get : (get lock_wait listed g).1.forwarded ≡ g.forwarded
  unfolding get
  forwarded-get = ground arith

  pub rate_limiter-get : (get lock_wait listed g).1.rate_limiter ≡ g.rate_limiter
  unfolding get
  rate_limiter-get = ground arith

  pub log-get : (get lock_wait listed g).1.log ≡ g.log
  unfolding get
  log-get = ground arith

-- Once the cache has the tools, every later `get` that is not cancelled returns the same list and asks
-- the upstream nothing, until `invalidate`; after `invalidate` the next one asks once.
get-get :
    (listed listed' : Outcome (List Tool)) (g g' : Gateway) (tools : List Tool)
    → get (ok tt) listed g ≡ (ok tools, g')
    → (get (ok tt) listed' g' ≡ (ok tools, g'))
      × ((get (ok tt) listed' (invalidate g')).1.fetches ≡ g'.fetches + 1)
unfolding get invalidate
get-get listed listed' g g' tools e = ground arith
