-- ===== src/Bridge/Flight/Fetches.antt =====
-- The lock and the fetches of `UpstreamToolCache` (sentinelmcp/gateway/bridge.py) among the tasks of a
-- World.
use sentinel_mcp.Prelude.{
  ℕ, ◌+◌, false, none, ◌≤◌, ◌≡◌, refl, sym, ap, ◌∙◌, List, [], ◌∷◌, ◌++◌, arith, total,
  total-middle, total-append,
}
use sentinel_mcp.Bridge.State.{Runtime, Config, Request}
use sentinel_mcp.Bridge.Flight.{Shared, Point}
use sentinel_mcp.Bridge.Flight.Advancing.{advance-Move}
use sentinel_mcp.Bridge.Flight.Guards.{
  locks, fails, may_fail, taken_by, vacant, cost, Guarding, Move-Guards,
}
use sentinel_mcp.Bridge.Flight.Inquiry.{Inquiry, Stage, Lister}
use sentinel_mcp.Bridge.Flight.Inquiry.Proceeding.{
  keeps_lock, in_vain, may_err, proceed-Proceeds, Proceeds-Guarding,
}
use sentinel_mcp.Bridge.Flight.World.{
  Task, World, moved, arrived, newcomer, relisted, asked, enquirer, arrive, move, ask, list, Reach,
  here, next,
}

-- How many of the tasks have the lock.
abbrev pub lockers : List Task → ℕ
lockers = total (λ t. locks t.point)

-- How many of the tasks have a request whose fetch would fail.
abbrev pub failing : List Task → ℕ
failing = total fails

abbrev still_failing : List Task → ℕ
still_failing = total (λ t. may_fail t.request t.point)

-- The same of the `tools/list` requests.
abbrev pub list_lockers : List Lister → ℕ
list_lockers = total (λ l. keeps_lock l.stage)

abbrev pub failing_lists : List Lister → ℕ
failing_lists = total in_vain

abbrev still_failing_lists : List Lister → ℕ
still_failing_lists = total (λ l. may_err l.inquiry l.stage)

-- The lock is taken when one request has it and free when none has, the cache is empty while it is
-- taken, and the cost is within the budget.
pub record IsGuarded (budget : ℕ) (w : World) : Type 0 where
  pub exclusive : lockers w.tasks + list_lockers w.listers ≡ taken_by w.shared.locked
  pub empty : taken_by w.shared.locked ≤ vacant w.shared.gateway.tools
  pub affordable :
      cost w.shared + still_failing w.tasks + still_failing_lists w.listers
      ≤ budget + failing w.tasks + failing_lists w.listers

lockers-middle :
    (before : List Task) (t : Task) (after : List Task)
    → lockers (before ++ t ∷ after) ≡ lockers (before ++ after) + locks t.point
lockers-middle before t after = total-middle (λ t. locks t.point) before t after

still_failing-middle :
    (before : List Task) (t : Task) (after : List Task)
    → still_failing (before ++ t ∷ after)
      ≡ still_failing (before ++ after) + may_fail t.request t.point
still_failing-middle before t after = total-middle (λ t. may_fail t.request t.point) before t after

failing-moved :
    (before : List Task) (t : Task) (after : List Task) (p : Point)
    → failing (before ++ record t { point = p } ∷ after) ≡ failing (before ++ t ∷ after)
failing-moved before t after p =
    total-middle fails before (record t { point = p }) after
    ∙ sym (total-middle fails before t after)

list_lockers-middle :
    (before : List Lister) (l : Lister) (after : List Lister)
    → list_lockers (before ++ l ∷ after) ≡ list_lockers (before ++ after) + keeps_lock l.stage
list_lockers-middle before l after = total-middle (λ l. keeps_lock l.stage) before l after

still_failing_lists-middle :
    (before : List Lister) (l : Lister) (after : List Lister)
    → still_failing_lists (before ++ l ∷ after)
      ≡ still_failing_lists (before ++ after) + may_err l.inquiry l.stage
still_failing_lists-middle before l after =
    total-middle (λ l. may_err l.inquiry l.stage) before l after

failing_lists-relisted :
    (before : List Lister) (l : Lister) (after : List Lister) (s : Stage)
    → failing_lists (before ++ record l { stage = s } ∷ after) ≡ failing_lists (before ++ l ∷ after)
failing_lists-relisted before l after s =
    total-middle in_vain before (record l { stage = s }) after
    ∙ sym (total-middle in_vain before l after)

module _ (rt : Runtime) (config : Config) (budget : ℕ) where
  arrive-IsGuarded : (w : World) (r : Request) → IsGuarded budget w → IsGuarded budget (arrived w r)
  arrive-IsGuarded w r h =
      let new = newcomer r ∷ [] in
      record {
        exclusive =
            omega (arith, total-append (λ (t : Task). locks t.point) w.tasks new, h.exclusive);
        empty = h.empty;
        affordable = omega (
          arith,
          total-append (λ (t : Task). may_fail t.request t.point) w.tasks new,
          total-append fails w.tasks new,
          h.affordable,
        );
      }

  move-IsGuarded :
      (w : World) (before : List Task) (t : Task) (after : List Task) (p : Point) (sh : Shared)
      → w.tasks ≡ before ++ t ∷ after
      → Guarding
          (locks t.point)
          (may_fail t.request t.point)
          w.shared
          (locks p)
          (may_fail t.request p)
          sh
      → IsGuarded budget w
      → IsGuarded budget (moved w before t after p sh)
  move-IsGuarded w before t after p sh split kept h =
      let had = ap lockers split ∙ lockers-middle before t after in
      let has = lockers-middle before (record t { point = p }) after in
      let others = lockers (before ++ after) + list_lockers w.listers in
      record {
        exclusive = omega (arith, has, kept.lock others (omega (arith, h.exclusive, had)));
        empty = kept.empty (omega (arith, h.exclusive, had)) h.empty;
        affordable = omega (
          arith,
          kept.spent (omega (arith, h.exclusive, h.empty, had)),
          h.affordable,
          ap still_failing split,
          ap failing split,
          still_failing-middle before t after,
          still_failing-middle before (record t { point = p }) after,
          failing-moved before t after p,
        );
      }

  ask-IsGuarded : (w : World) (i : Inquiry) → IsGuarded budget w → IsGuarded budget (asked w i)
  ask-IsGuarded w i h =
      let new = enquirer i ∷ [] in
      record {
        exclusive =
            omega
              (arith, total-append (λ (l : Lister). keeps_lock l.stage) w.listers new, h.exclusive);
        empty = h.empty;
        affordable = omega (
          arith,
          total-append (λ (l : Lister). may_err l.inquiry l.stage) w.listers new,
          total-append in_vain w.listers new,
          h.affordable,
        );
      }

  list-IsGuarded :
      (w : World) (before : List Lister) (l : Lister) (after : List Lister) (s : Stage)
      (sh : Shared)
      → w.listers ≡ before ++ l ∷ after
      → Guarding
          (keeps_lock l.stage)
          (may_err l.inquiry l.stage)
          w.shared
          (keeps_lock s)
          (may_err l.inquiry s)
          sh
      → IsGuarded budget w
      → IsGuarded budget (relisted w before l after s sh)
  list-IsGuarded w before l after s sh split kept h =
      let had = ap list_lockers split ∙ list_lockers-middle before l after in
      let has = list_lockers-middle before (record l { stage = s }) after in
      let others = lockers w.tasks + list_lockers (before ++ after) in
      record {
        exclusive = omega (arith, has, kept.lock others (omega (arith, h.exclusive, had)));
        empty = kept.empty (omega (arith, h.exclusive, had)) h.empty;
        affordable = omega (
          arith,
          kept.spent (omega (arith, h.exclusive, h.empty, had)),
          h.affordable,
          ap still_failing_lists split,
          ap failing_lists split,
          still_failing_lists-middle before l after,
          still_failing_lists-middle before (record l { stage = s }) after,
          failing_lists-relisted before l after s,
        );
      }

  -- However the requests arrive and their steps interleave: at most one request has the cache's lock,
  -- the lock is taken exactly when one has it, and while it is taken the cache is empty; and the fetches
  -- keep within their budget.
  pub tasks-IsGuarded :
      {w : World} {u : World} → IsGuarded budget w → Reach rt config w u → IsGuarded budget u
  tasks-IsGuarded h here = h
  tasks-IsGuarded h (next {u} reached (arrive r)) = arrive-IsGuarded u r (tasks-IsGuarded h reached)
  tasks-IsGuarded h (next {u} reached (move before t after p sh split step)) =
      move-IsGuarded u before t after p sh split
        (Move-Guards rt config t.request
          (advance-Move rt config t.request t.point p u.shared sh step)).guarding
        (tasks-IsGuarded h reached)
  tasks-IsGuarded h (next {u} reached (ask i)) = ask-IsGuarded u i (tasks-IsGuarded h reached)
  tasks-IsGuarded h (next {u} reached (list before l after s sh split step)) =
      list-IsGuarded u before l after s sh split
        (Proceeds-Guarding config.policy l.inquiry
          (proceed-Proceeds config.policy l.inquiry l.stage s u.shared sh step))
        (tasks-IsGuarded h reached)

-- A gateway as `build_gateway_server` makes it: no request yet, an empty cache with its lock free, nothing
-- asked of the upstream.
pub record IsFresh (w : World) : Type 0 where
  pub no_tasks : w.tasks ≡ []
  pub no_listers : w.listers ≡ []
  pub unlocked : w.shared.locked ≡ false
  pub no_tools : w.shared.gateway.tools ≡ none
  pub no_fetches : w.shared.gateway.fetches ≡ 0

IsFresh-IsGuarded : (w : World) → IsFresh w → IsGuarded 1 w
IsFresh-IsGuarded w h = record {
  exclusive = rw (h.no_tasks, h.no_listers, h.unlocked) refl;
  empty = rw (h.unlocked, h.no_tools) (omega arith);
  affordable = rw (h.no_tasks, h.no_listers, h.no_tools, h.no_fetches) (omega arith);
}

-- From a fresh gateway, however many `tools/call` and `tools/list` requests arrive and however their
-- steps interleave: at most one of them is at the fetch at any time, and the upstream is asked for its
-- tool list at most once more than there are requests whose own fetch would fail.
pub fetches-le :
    (rt : Runtime) (config : Config) (w u : World)
    → IsFresh w
    → Reach rt config w u
    → (lockers u.tasks + list_lockers u.listers ≤ 1)
      × (u.shared.gateway.fetches ≤ 1 + failing u.tasks + failing_lists u.listers)
fetches-le rt config w u fresh reached =
    let h = tasks-IsGuarded rt config 1 (IsFresh-IsGuarded w fresh) reached in
    (ground (arith, h.exclusive), omega (arith, h.affordable))
