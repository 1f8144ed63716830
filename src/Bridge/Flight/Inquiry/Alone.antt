-- ===== src/Bridge/Flight/Inquiry/Alone.antt =====
-- One `tools/list` request of Inquiry with no other beside it, against `handle_list_tools`
-- (sentinelmcp/gateway/bridge.py).
use sentinel_mcp.Prelude.{ℕ, zero, suc, ◌≡◌, false, none, some, List, String, arith}
use sentinel_mcp.Exec.{Outcome, ok, raised}
use sentinel_mcp.Policy.Models.{PolicyConfig}
use sentinel_mcp.Identity.Middleware.{Context, current_principal}
use sentinel_mcp.Bridge.State.{Tool, Gateway}
use sentinel_mcp.Bridge.Cache
use sentinel_mcp.Bridge.ListTools.{handle_list_tools}
use sentinel_mcp.Bridge.Flight.{Shared}
use sentinel_mcp.Bridge.Flight.Inquiry.{
  Inquiry, Stage, queued, shown, glance, queue, received, proceed,
}

-- Its steps, as long as it can take one.
pub follow : PolicyConfig → Inquiry → ℕ → Stage × Shared → Stage × Shared
follow policy i zero here = here
follow policy i (suc n) here = elim (proceed policy i here.0 here.1) [
  | none ↦ here
  | some there ↦ follow policy i n there
]

abbrev free : Gateway → Shared
free g = record { gateway = g; locked = false }

-- The handler's result and the gateway after it.
abbrev pub concluded : Outcome (List Tool) × Context Gateway → Stage × Shared
concluded (result, context) = (shown result, free context.world)

module _ (policy : PolicyConfig) (principal : String) where
  abbrev inquiry : Outcome (Unit {0}) → Outcome (List Tool) → Inquiry
  inquiry lock_wait listed = record {
    principal = principal;
    lock_wait = lock_wait;
    listed = listed;
  }

  -- From a gateway whose cache is not being filled, alone, the request has ended after two steps at
  -- most, with the handler's outcome and with the gateway that the handler leaves.
  pub follow-queued :
      (lock_wait : Outcome (Unit {0})) (listed : Outcome (List Tool)) (context : Context Gateway)
      → context.principal_var ≡ some principal
      → follow policy (inquiry lock_wait listed) 2 (queued, free context.world)
        ≡ concluded (handle_list_tools policy lock_wait listed context)
  unfolding follow proceed queue glance received handle_list_tools current_principal Cache.get
      Cache.keep
  follow-queued (raised e) listed context authentic = ground (arith, authentic)
  follow-queued (ok _) (ok tools) context authentic = ground (arith, authentic)
  follow-queued (ok _) (raised e) context authentic = ground (arith, authentic)
