-- ===== src/Bridge/Flight/Traffic/Admission.antt =====
-- Whose calls reach the upstream, where HTTP requests come in as in Traffic
-- (sentinelmcp/gateway/identity.py before sentinelmcp/gateway/bridge.py).
use mathlib.Core.Path.{subst}
use sentinel_mcp.Prelude.{
  ◌≡◌, refl, ap, sym, ◌∙◌, ◌⊎◌, inl, inr, Option, none, some, List, [], ◌∷◌, ◌++◌, String, All,
  All-append, All-map, All-middle, All-replace,
}
use sentinel_mcp.Prelude.Dict.{Dict}
use sentinel_mcp.Json.{Fields}
use sentinel_mcp.Exec.{Outcome}
use sentinel_mcp.Identity.Resolver.{configured, configure}
use sentinel_mcp.Identity.Resolver.Keys.{resolve_iff}
use sentinel_mcp.Identity.Middleware.{header_values}
use sentinel_mcp.Identity.Middleware.Authentication.{Authentic}
use sentinel_mcp.Bridge.State.{Tool, Runtime, Config, Request}
use sentinel_mcp.Bridge.CallTool.{or_end}
use sentinel_mcp.Bridge.Flight.Ruled.{IsAllowed}
use sentinel_mcp.Bridge.Flight.Vetted.{HasArrived, IsBacked, forwarded-IsBacked}
use sentinel_mcp.Bridge.Flight.Traffic.{
  Post, request_of, resolved, enter_as, ask_as, Traffic, quiet, post, post_list, call_step,
  list_step, posted, traffic-Reach,
}
use sentinel_mcp.Bridge.Flight.World.{Task, World, newcomer}

-- The request was posted.
abbrev pub IsPosted : Post → List Post → Type 0
IsPosted p [] = ⊥
IsPosted p (x ∷ xs) = (x ≡ p) ⊎ IsPosted p xs

IsPosted-append : (p : Post) (xs ys : List Post) → IsPosted p xs → IsPosted p (xs ++ ys)
IsPosted-append p [] ys h = elim h [ ]
IsPosted-append p (x ∷ xs) ys (inl e) = inl e
IsPosted-append p (x ∷ xs) ys (inr h) = inr (IsPosted-append p xs ys h)

IsPosted-last : (p : Post) (xs : List Post) → IsPosted p (xs ++ p ∷ [])
IsPosted-last p [] = inl refl
IsPosted-last p (x ∷ xs) = inr (IsPosted-last p xs)

HasArrived-All :
    (P : Request → Type 0) (tasks : List Task) (r : Request)
    → All (λ t. P t.request) tasks
    → HasArrived r tasks
    → P r
HasArrived-All P [] r h there = elim there [ ]
HasArrived-All P (t ∷ ts) r (here, h) (inl e) = subst P e here
HasArrived-All P (t ∷ ts) r (here, h) (inr there) = HasArrived-All P ts r h there

module _ (rt : Runtime) (config : Config) (digest : String → String) (environ : Dict String)
    (pairs : List (String × String)) (digests : Dict String)
    (started : configure digest environ pairs ≡ configured digests) where
  -- The request is one that was posted, of the principal whose key it presented.
  abbrev IsVouched : List Post → Request → Type 0
  IsVouched posts r =
      (p : Post) × IsPosted p posts
      × Authentic rt.lower_other digest environ pairs p.scope r.principal
      × (request_of p r.principal ≡ r)

  abbrev AllVouched : List Post → List Task → Type 0
  AllVouched posts tasks = All (λ t. IsVouched posts t.request) tasks

  more-AllVouched :
      (posts more : List Post) (tasks : List Task)
      → AllVouched posts tasks
      → AllVouched (posts ++ more) tasks
  more-AllVouched posts more tasks h =
      All-map (λ t. IsVouched posts t.request) (λ t. IsVouched (posts ++ more) t.request)
        (λ t (p, there, authentic, same). (p, IsPosted-append p posts more there, authentic, same))
        tasks h

  admitted-AllVouched :
      (w : World) (p : Post) (posts : List Post) (found : Option String)
      → resolved rt config digest digests p.scope ≡ found
      → AllVouched posts w.tasks
      → AllVouched (posts ++ p ∷ []) (enter_as rt config digest digests w p found).tasks
  admitted-AllVouched w p posts none nobody h = more-AllVouched posts (p ∷ []) w.tasks h
  admitted-AllVouched w p posts (some name) as_name h =
      All-append (λ t. IsVouched (posts ++ p ∷ []) t.request) w.tasks
        (newcomer (request_of p name) ∷ []) (more-AllVouched posts (p ∷ []) w.tasks h)
        (
          (
            p,
            IsPosted-last p posts,
            (resolve_iff digest environ pairs digests (header_values rt.lower_other p.scope.headers)
                  name started).0
                as_name,
            refl,
          ),
          tt,
        )

  ask_as-AllVouched :
      (w : World) (posts : List Post) (found : Option String) (lock_wait : Outcome (Unit {0}))
      (listed : Outcome (List Tool))
      → AllVouched posts w.tasks
      → AllVouched posts (ask_as rt config digest digests w lock_wait listed found).tasks
  ask_as-AllVouched w posts none lock_wait listed h = h
  ask_as-AllVouched w posts (some name) lock_wait listed h = h

  traffic-AllVouched :
      {w : World} {u : World}
      → w.tasks ≡ []
      → (traffic : Traffic rt config digest digests w u)
      → AllVouched (posted rt config digest digests traffic) u.tasks
  unfolding posted
  traffic-AllVouched no_tasks quiet = rw no_tasks tt
  traffic-AllVouched no_tasks (post {u} traffic p http) =
      admitted-AllVouched u p (posted rt config digest digests traffic)
        (resolved rt config digest digests p.scope) refl (traffic-AllVouched no_tasks traffic)
  traffic-AllVouched no_tasks (post_list {u} traffic scope http lock_wait listed) =
      ask_as-AllVouched u (posted rt config digest digests traffic)
        (resolved rt config digest digests scope) lock_wait listed
        (traffic-AllVouched no_tasks traffic)
  traffic-AllVouched no_tasks (call_step traffic before t after p sh split step) =
      let posts = posted rt config digest digests traffic in
      let vouched = subst (AllVouched posts) split (traffic-AllVouched no_tasks traffic) in
      All-replace (λ x. IsVouched posts x.request) before t (record t { point = p }) after
        (All-middle (λ x. IsVouched posts x.request) before t after vouched) vouched
  traffic-AllVouched no_tasks (list_step traffic before l after s sh split step) =
      traffic-AllVouched no_tasks traffic

  -- The call is, unchanged, that of a request that was posted and that presented the key of a
  -- principal for which the policy has an allow rule that the arguments satisfy.
  abbrev pub IsEntitled : List Post → String × Fields → Type 0
  IsEntitled posts call =
      (p : Post) × (name : String) × IsPosted p posts
      × Authentic rt.lower_other digest environ pairs p.scope name
      × (call ≡ (p.tool_name, or_end p.arguments))
      × IsAllowed rt config (request_of p name)

  entitled :
      (posts : List Post) (tasks : List Task) (call : String × Fields)
      → AllVouched posts tasks
      → IsBacked rt config tasks call
      → IsEntitled posts call
  entitled posts tasks call vouched (r, there, same, allowed) =
      let (p, among, authentic, is_r) = HasArrived-All (IsVouched posts) tasks r vouched there in
      (
        p,
        r.principal,
        among,
        authentic,
        same ∙ sym (ap (λ (x : Request). (x.tool_name, x.arguments)) is_r),
        subst (IsAllowed rt config) (sym is_r) allowed,
      )

  -- From a gateway without tasks that has called the upstream for nothing, however many HTTP requests
  -- come in and however their handling interleaves: every call that the upstream got is, unchanged,
  -- that of a request that was posted and that presented the key of a principal for which the policy
  -- has an allow rule that the arguments satisfy.
  pub forwarded-IsEntitled :
      (w u : World)
      → w.tasks ≡ []
      → w.shared.gateway.forwarded ≡ []
      → (traffic : Traffic rt config digest digests w u)
      → All (IsEntitled (posted rt config digest digests traffic)) u.shared.gateway.forwarded
  forwarded-IsEntitled w u no_tasks no_calls traffic =
      let posts = posted rt config digest digests traffic in
      All-map (IsBacked rt config u.tasks) (IsEntitled posts)
        (λ call backed. entitled posts u.tasks call (traffic-AllVouched no_tasks traffic) backed)
        u.shared.gateway.forwarded
        (forwarded-IsBacked rt config w u no_tasks no_calls
          (traffic-Reach rt config digest digests traffic))
