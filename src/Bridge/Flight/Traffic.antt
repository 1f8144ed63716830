-- ===== src/Bridge/Flight/Traffic.antt =====
-- HTTP requests in any number in flight at one gateway, behind `BearerAuthMiddleware` of
-- sentinelmcp/gateway/identity.py: the requests that get past it are the tasks of a World. The protocol
-- layer between the middleware and the handlers is left out.
pub mod Admission
use sentinel_mcp.Prelude.{◌≡◌, Option, none, some, List, [], ◌∷◌, ◌++◌, String}
use sentinel_mcp.Prelude.Dict.{Dict}
use sentinel_mcp.Json.{Fields}
use sentinel_mcp.Exec.{Outcome}
use sentinel_mcp.Identity.Resolver.{resolve}
use sentinel_mcp.Identity.Middleware.{Scope, header_values}
use sentinel_mcp.Bridge.State.{Tool, Runtime, Config, Surroundings, Request}
use sentinel_mcp.Bridge.CallTool.{or_end}
use sentinel_mcp.Bridge.Flight.{Shared, Point, advance}
use sentinel_mcp.Bridge.Flight.Inquiry.{Stage, Lister, proceed}
use sentinel_mcp.Bridge.Flight.World.{
  Task, World, moved, arrived, relisted, asked, arrive, move, ask, list, Reach, here, next,
}

-- A `tools/call` request as it is posted, with what happens around its handling.
pub record Post : Type 0 where
  pub scope : Scope
  pub surroundings : Surroundings
  pub tool_name : String
  pub arguments : Option Fields

abbrev pub request_of : Post → String → Request
request_of post p = record {
  surroundings = post.surroundings;
  principal = p;
  tool_name = post.tool_name;
  arguments = or_end post.arguments;
}

module _ (rt : Runtime) (config : Config) (digest : String → String) (digests : Dict String) where
  abbrev pub resolved : Scope → Option String
  resolved scope = resolve digest digests (header_values rt.lower_other scope.headers)

  -- `__call__` up to the handler: a request that resolves to nobody is turned away.
  abbrev pub enter_as : World → Post → Option String → World
  enter_as w post none = w
  enter_as w post (some p) = arrived w (request_of post p)

  abbrev pub admit : World → Post → World
  admit w post = enter_as w post (resolved post.scope)

  abbrev pub ask_as : World → Outcome (Unit {0}) → Outcome (List Tool) → Option String → World
  ask_as w lock_wait listed none = w
  ask_as w lock_wait listed (some p) =
      asked w (record { principal = p; lock_wait = lock_wait; listed = listed })

  -- What happens from `w` on: requests of HTTP clients come in, and those that were let in take steps.
  pub data Traffic (w : World) : World → Type 0 where
    quiet : Traffic w w
    post : {u : World} → Traffic w u → (p : Post) → p.scope.kind ≡ "http" → Traffic w (admit u p)
    post_list :
        {u : World}
        → Traffic w u
        → (scope : Scope) → scope.kind ≡ "http"
        → (lock_wait : Outcome (Unit {0})) (listed : Outcome (List Tool))
        → Traffic w (ask_as u lock_wait listed (resolved scope))
    call_step :
        {u : World}
        → Traffic w u
        → (before : List Task) (t : Task) (after : List Task) (p : Point) (sh : Shared)
        → u.tasks ≡ before ++ t ∷ after
        → advance rt config t.request t.point u.shared ≡ some (p, sh)
        → Traffic w (moved u before t after p sh)
    list_step :
        {u : World}
        → Traffic w u
        → (before : List Lister) (l : Lister) (after : List Lister) (s : Stage) (sh : Shared)
        → u.listers ≡ before ++ l ∷ after
        → proceed config.policy l.inquiry l.stage u.shared ≡ some (s, sh)
        → Traffic w (relisted u before l after s sh)

  -- The `tools/call` requests that were posted, in their order, turned away or not.
  unfoldable pub posted : {w : World} {u : World} → Traffic w u → List Post
  posted quiet = []
  posted (post traffic p http) = posted traffic ++ p ∷ []
  posted (post_list traffic scope http lock_wait listed) = posted traffic
  posted (call_step traffic before t after p sh split step) = posted traffic
  posted (list_step traffic before l after s sh split step) = posted traffic

  admit-Reach :
      {w : World} {u : World}
      → Reach rt config w u
      → (p : Post) (found : Option String) → Reach rt config w (enter_as u p found)
  admit-Reach reached p none = reached
  admit-Reach reached p (some name) = next reached (arrive (request_of p name))

  ask-Reach :
      {w : World} {u : World}
      → Reach rt config w u
      → (lock_wait : Outcome (Unit {0})) (listed : Outcome (List Tool)) (found : Option String)
      → Reach rt config w (ask_as u lock_wait listed found)
  ask-Reach reached lock_wait listed none = reached
  ask-Reach reached lock_wait listed (some name) = next reached (ask _)

  -- The requests that are let in make a run of the tasks.
  pub traffic-Reach : {w : World} {u : World} → Traffic w u → Reach rt config w u
  traffic-Reach quiet = here
  traffic-Reach (post traffic p http) = admit-Reach (traffic-Reach traffic) p (resolved p.scope)
  traffic-Reach (post_list traffic scope http lock_wait listed) =
      ask-Reach (traffic-Reach traffic) lock_wait listed (resolved scope)
  traffic-Reach (call_step traffic before t after p sh split step) =
      next (traffic-Reach traffic) (move before t after p sh split step)
  traffic-Reach (list_step traffic before l after s sh split step) =
      next (traffic-Reach traffic) (list before l after s sh split step)
