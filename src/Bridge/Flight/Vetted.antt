-- ===== src/Bridge/Flight/Vetted.antt =====
-- What the tasks of a World forward to the upstream (`handle_call_tool` of
-- sentinelmcp/gateway/bridge.py).
use sentinel_mcp.Prelude.{
  ◌≡◌, refl, ◌⊎◌, inl, inr, List, [], ◌∷◌, ◌++◌, String, All, All-append, All-replace, All-middle,
  All-map,
}
use sentinel_mcp.Json.{Fields}
use sentinel_mcp.Bridge.State.{Runtime, Config, Request}
use sentinel_mcp.Bridge.Flight.{Shared, Point}
use sentinel_mcp.Bridge.Flight.Moves.{Move}
use sentinel_mcp.Bridge.Flight.Advancing.{advance-Move}
use sentinel_mcp.Bridge.Flight.Ruled.{
  calls_of, IsRuled, IsAllowed, Forwards, Move-IsRuled, Move-Forwards,
}
use sentinel_mcp.Bridge.Flight.Inquiry.Proceeding.{proceed-Proceeds, Proceeds-Leaves}
use sentinel_mcp.Bridge.Flight.World.{
  Task, World, moved, arrived, newcomer, arrive, move, ask, list, Reach, here, next,
}

-- The request has arrived.
abbrev pub HasArrived : Request → List Task → Type 0
HasArrived r [] = ⊥
HasArrived r (t ∷ ts) = (t.request ≡ r) ⊎ HasArrived r ts

HasArrived-middle :
    (before : List Task) (t : Task) (after : List Task) → HasArrived t.request (before ++ t ∷ after)
HasArrived-middle [] t after = inl refl
HasArrived-middle (x ∷ xs) t after = inr (HasArrived-middle xs t after)

HasArrived-moved :
    (r : Request) (before : List Task) (t : Task) (after : List Task) (p : Point)
    → HasArrived r (before ++ t ∷ after)
    → HasArrived r (before ++ record t { point = p } ∷ after)
HasArrived-moved r [] t after p h = h
HasArrived-moved r (x ∷ xs) t after p (inl e) = inl e
HasArrived-moved r (x ∷ xs) t after p (inr h) = inr (HasArrived-moved r xs t after p h)

HasArrived-append :
    (r : Request) (tasks more : List Task) → HasArrived r tasks → HasArrived r (tasks ++ more)
HasArrived-append r [] more h = elim h [ ]
HasArrived-append r (t ∷ ts) more (inl e) = inl e
HasArrived-append r (t ∷ ts) more (inr h) = inr (HasArrived-append r ts more h)

module _ (rt : Runtime) (config : Config) where
  -- The call is that of a request that has arrived and is allowed.
  abbrev pub IsBacked : List Task → String × Fields → Type 0
  IsBacked tasks call =
      (r : Request) × HasArrived r tasks
      × (call ≡ (r.tool_name, r.arguments))
      × IsAllowed rt config r

  record IsVetted (w : World) : Type 0 where
    pub ruled : All (λ t. IsRuled rt config t.request t.point) w.tasks
    pub backed : All (IsBacked w.tasks) (calls_of w.shared)

  arrive-IsVetted : (w : World) (r : Request) → IsVetted w → IsVetted (arrived w r)
  arrive-IsVetted w r h = record {
    ruled =
        All-append (λ t. IsRuled rt config t.request t.point) w.tasks (newcomer r ∷ []) h.ruled
          (tt, tt);
    backed =
        All-map (IsBacked w.tasks) (IsBacked (arrived w r).tasks)
          (λ call (q, there, same, allowed).
            (q, HasArrived-append q w.tasks (newcomer r ∷ []) there, same, allowed))
          (calls_of w.shared) h.backed;
  }

  module _ (w : World) (before : List Task) (t : Task) (after : List Task) (p : Point) (sh : Shared)
      (split : w.tasks ≡ before ++ t ∷ after) (h : IsVetted w) where
    abbrev tasks' : List Task
    tasks' = before ++ record t { point = p } ∷ after

    IsRuled-before : All (λ x. IsRuled rt config x.request x.point) (before ++ t ∷ after)
    IsRuled-before = rw split at h.ruled

    -- What was backed is so after the step.
    still-IsBacked : All (IsBacked tasks') (calls_of w.shared)
    still-IsBacked =
        All-map (IsBacked w.tasks) (IsBacked tasks')
          (λ call (q, there, same, allowed).
            (q, HasArrived-moved q before t after p (rw split at there), same, allowed))
          (calls_of w.shared) h.backed

    IsBacked-after : Forwards rt config t.request w.shared sh → All (IsBacked tasks') (calls_of sh)
    IsBacked-after (inl same) = rw same still-IsBacked
    IsBacked-after (inr (once, allowed)) = rw once (
        All-append (IsBacked tasks') (calls_of w.shared) _ still-IsBacked
          ((t.request, HasArrived-middle before (record t { point = p }) after, refl, allowed), tt))

    move-IsVetted :
        Move rt config t.request t.point w.shared p sh → IsVetted (moved w before t after p sh)
    move-IsVetted m =
        let rule =
          All-middle (λ x. IsRuled rt config x.request x.point) before t after IsRuled-before in
        record {
          ruled =
              All-replace (λ x. IsRuled rt config x.request x.point) before t
                (record t { point = p }) after (Move-IsRuled rt config t.request m rule)
                IsRuled-before;
          backed = IsBacked-after (Move-Forwards rt config t.request m rule);
        }

  tasks-IsVetted : {w : World} {u : World} → IsVetted w → Reach rt config w u → IsVetted u
  tasks-IsVetted h here = h
  tasks-IsVetted h (next {u} reached (arrive r)) = arrive-IsVetted u r (tasks-IsVetted h reached)
  tasks-IsVetted h (next {u} reached (move before t after p sh split step)) =
      move-IsVetted u before t after p sh split (tasks-IsVetted h reached)
        (advance-Move rt config t.request t.point p u.shared sh step)
  tasks-IsVetted h (next {u} reached (ask i)) =
      let had = tasks-IsVetted h reached in record { ruled = had.ruled; backed = had.backed }
  tasks-IsVetted h (next {u} reached (list before l after s sh split step)) =
      let had = tasks-IsVetted h reached in
      let kept =
        Proceeds-Leaves config.policy l.inquiry
          (proceed-Proceeds config.policy l.inquiry l.stage s u.shared sh step) in
      record { ruled = had.ruled; backed = rw kept.same_calls had.backed }

  -- From a gateway without tasks that has called the upstream for nothing: however many requests arrive
  -- and however their steps interleave, every call that the upstream got is, with its tool name and
  -- arguments unchanged, that of a request that has arrived, for which the policy has an allow rule that
  -- the arguments satisfy.
  pub forwarded-IsBacked :
      (w u : World)
      → w.tasks ≡ []
      → w.shared.gateway.forwarded ≡ []
      → Reach rt config w u
      → All (IsBacked u.tasks) u.shared.gateway.forwarded
  forwarded-IsBacked w u no_tasks no_calls reached =
      (tasks-IsVetted (record { ruled = rw no_tasks tt; backed = rw no_calls tt }) reached).backed
