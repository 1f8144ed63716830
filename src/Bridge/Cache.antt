-- ===== src/Bridge/Cache.antt =====
-- `UpstreamToolCache` of sentinelmcp/gateway/bridge.py. `lock_wait` is how the wait for the cache's lock
-- ends: it is held across the fetch, so a caller can be cancelled while it waits.
pub mod Laws
use sentinel_mcp.Prelude.{◌+◌, none, some, List}
use sentinel_mcp.Exec.{Outcome, ok, raised, Exec}
use sentinel_mcp.Bridge.State.{Tool, Gateway}

-- The answer of `upstream.list_tools()`, kept if there is one.
unfoldable pub keep : Outcome (List Tool) → Exec Gateway (List Tool)
keep (raised e) g = (raised e, record g { fetches = g.fetches + 1 })
keep (ok tools) g = (ok tools, record g { fetches = g.fetches + 1; tools = some tools })

unfoldable pub get :
    (lock_wait : Outcome (Unit {0})) → (listed : Outcome (List Tool)) → Exec Gateway (List Tool)
unfolding keep
get (raised e) listed g = (raised e, g)
get (ok _) listed g = elim g.tools [ some tools ↦ (ok tools, g) | none ↦ keep listed g ]

pub invalidate : Gateway → Gateway
invalidate g = record g { tools = none }
