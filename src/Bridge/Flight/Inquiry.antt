-- ===== src/Bridge/Flight/Inquiry.antt =====
-- `handle_list_tools` and `UpstreamToolCache.get` (sentinelmcp/gateway/bridge.py) as a machine that
-- stops at each `await` that can suspend, beside the calls of Flight at the same cache.
pub mod Proceeding
pub mod Alone
use sentinel_mcp.Prelude.{◌+◌, true, false, Option, none, some, List, String, if◌then◌else◌}
use sentinel_mcp.Exec.{Outcome, ok, raised}
use sentinel_mcp.Policy.Models.{PolicyConfig}
use sentinel_mcp.Bridge.State.{Tool}
use sentinel_mcp.Bridge.ListTools.{allowed_tools}
use sentinel_mcp.Bridge.Flight.{Shared}

-- A `tools/list` request of an authenticated principal, with how its wait for the cache's lock and its
-- call of `upstream.list_tools()` end.
pub record Inquiry : Type 0 where
  pub principal : String
  pub lock_wait : Outcome (Unit {0})
  pub listed : Outcome (List Tool)

-- Where it stands: waiting for the cache's lock, waiting with the lock for the upstream's list, ended.
pub data Stage : Type 0 where
  queued querying : Stage
  shown : Outcome (List Tool) → Stage

pub record Lister : Type 0 where
  pub inquiry : Inquiry
  pub stage : Stage

module _ (policy : PolicyConfig) (i : Inquiry) where
  abbrev pub showing : List Tool → Stage
  showing tools = shown (ok (allowed_tools policy i.principal tools))

  -- The cache's lock is free.
  pub glance : Option (List Tool) → Shared → Stage × Shared
  glance (some tools) sh = (showing tools, sh)
  glance none sh = (querying, record sh { locked = true })

  pub queue : Outcome (Unit {0}) → Shared → Option (Stage × Shared)
  unfolding glance
  queue (raised e) sh = some (shown (raised e), sh)
  queue (ok _) sh = if sh.locked then none else some (glance sh.gateway.tools sh)

  -- The upstream's list has come, and the lock is released.
  pub received : Outcome (List Tool) → Shared → Stage × Shared
  received (raised e) sh = (
    shown (raised e),
    record { gateway = record sh.gateway { fetches = sh.gateway.fetches + 1 }; locked = false },
  )
  received (ok tools) sh = (
    showing tools,
    record {
      gateway = record sh.gateway { fetches = sh.gateway.fetches + 1; tools = some tools };
      locked = false;
    },
  )

  -- One step of the request; `none` where it waits for the lock or has ended.
  unfoldable pub proceed : Stage → Shared → Option (Stage × Shared)
  unfolding queue received
  proceed queued sh = queue i.lock_wait sh
  proceed querying sh = some (received i.listed sh)
  proceed (shown result) sh = none
