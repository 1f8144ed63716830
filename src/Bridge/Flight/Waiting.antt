-- ===== src/Bridge/Flight/Waiting.antt =====
-- Who can take the next step in a World: the lock of `UpstreamToolCache` (sentinelmcp/gateway/bridge.py)
-- is what a request may wait for.
use sentinel_mcp.Prelude.{
  ℕ, ◌+◌, ◌-◌, Bool-cases, ◌≤◌, ◌<◌, ◌≡◌, refl, ◌⊎◌, inl, inr, false, some, List, [], ◌∷◌, ◌++◌,
  arith, length, total, total-found,
}
use sentinel_mcp.Exec.{Outcome, ok, raised}
use sentinel_mcp.Policy.Models.{ToolPolicy}
use sentinel_mcp.Bridge.State.{Runtime, Config, Request, Locals}
use sentinel_mcp.Bridge.Flight.{
  Shared, Point, ready, listing, fetching, calling, emitting, recovering, done, look, wait_for_lock,
  advance,
}
use sentinel_mcp.Bridge.Flight.Guards.{locks}
use sentinel_mcp.Bridge.Flight.Fetches.{lockers, list_lockers, IsGuarded}
use sentinel_mcp.Bridge.Flight.Logs.{ended}
use sentinel_mcp.Bridge.Flight.Records.{endings}
use sentinel_mcp.Bridge.Flight.Inquiry.{Stage, shown, Lister}
use sentinel_mcp.Bridge.Flight.Inquiry.Proceeding.{
  keeps_lock, answered_of, Goes, free-Goes, lock-Goes,
}
use sentinel_mcp.Bridge.Flight.Progress.{
  work_of, work-moved, work-relisted, length-moved, length-relisted,
}
use sentinel_mcp.Bridge.Flight.World.{Task, World, Step, moved, relisted, move, list}

module _ (rt : Runtime) (config : Config) (r : Request) where
  -- A step of a task that has not ended, where no lock is in its way.
  abbrev Advances : Point → Shared → Type 0
  Advances p sh = (p' : Point) × (sh' : Shared) × (advance rt config r p sh ≡ some (p', sh'))

  unlocked-Advances :
      (rule : ToolPolicy) (l : Locals) (o : Outcome (Unit {0})) (sh : Shared)
      → sh.locked ≡ false
      → (p' : Point) × (sh' : Shared) × (wait_for_lock rt config r rule l o sh ≡ some (p', sh'))
  unfolding wait_for_lock
  unlocked-Advances rule l (raised e) sh free = (_, _, refl)
  unlocked-Advances rule l (ok u) sh free =
      let found = look rt config r rule l sh.gateway.tools sh in (found.0, found.1, rw free refl)

  free-Advances : (p : Point) (sh : Shared) → sh.locked ≡ false → ended p ≡ 0 → Advances p sh
  unfolding advance
  free-Advances ready sh free going_on = (_, _, refl)
  free-Advances (listing rule l) sh free going_on =
      unlocked-Advances rule l r.surroundings.lock_wait sh free
  free-Advances (fetching rule l) sh free going_on = (_, _, refl)
  free-Advances (calling l) sh free going_on = (_, _, refl)
  free-Advances (emitting b outcome attempted category result l) sh free going_on = (_, _, refl)
  free-Advances (recovering e l) sh free going_on = (_, _, refl)
  free-Advances (done result) sh free going_on = absurd (omega (arith, going_on))

  lock-Advances : (p : Point) (sh : Shared) → 1 ≤ locks p → Advances p sh
  unfolding advance
  lock-Advances (fetching rule l) sh h = (_, _, refl)
  lock-Advances ready sh h = absurd (omega (arith, h))
  lock-Advances (listing rule l) sh h = absurd (omega (arith, h))
  lock-Advances (calling l) sh h = absurd (omega (arith, h))
  lock-Advances (emitting b outcome attempted category result l) sh h = absurd (omega (arith, h))
  lock-Advances (recovering e l) sh h = absurd (omega (arith, h))
  lock-Advances (done result) sh h = absurd (omega (arith, h))

-- One for a task that has not ended.
abbrev pub lasting : Task → ℕ
lasting t = 1 - ended t.point

ended-le : (p : Point) → ended p ≤ 1
ended-le (done result) = omega arith
ended-le _ = omega arith

pub lasting-endings : (tasks : List Task) → total lasting tasks + endings tasks ≡ length tasks
lasting-endings [] = refl
lasting-endings (t ∷ ts) = omega (arith, lasting-endings ts, ended-le t.point)

one_of : (m n : ℕ) → 1 ≤ m + n → (1 ≤ m) ⊎ (1 ≤ n)
one_of m n h = ground arith

-- How many of the `tools/list` requests have ended.
abbrev pub answerings : List Lister → ℕ
answerings = total (λ l. answered_of l.stage)

abbrev waiting : Lister → ℕ
waiting l = 1 - answered_of l.stage

answered_of-le : (s : Stage) → answered_of s ≤ 1
answered_of-le (shown result) = omega arith
answered_of-le _ = omega arith

pub waiting-answerings :
    (listers : List Lister) → total waiting listers + answerings listers ≡ length listers
waiting-answerings [] = refl
waiting-answerings (l ∷ ls) = omega (arith, waiting-answerings ls, answered_of-le l.stage)

-- The requests that have not ended.
abbrev pub left_in : World → ℕ
left_in w = total lasting w.tasks + total waiting w.listers

module _ (rt : Runtime) (config : Config) where
  -- A step that brings a request nearer to its end and loses none.
  pub record CanStep (w : World) : Type 0 where
    pub after : World
    pub step : Step rt config w after
    pub nearer : work_of after < work_of w
    pub same_tasks : length after.tasks ≡ length w.tasks
    pub same_listers : length after.listers ≡ length w.listers

  task-CanStep :
      (w : World) (before : List Task) (t : Task) (after : List Task)
      → w.tasks ≡ before ++ t ∷ after
      → Advances rt config t.request t.point w.shared
      → CanStep w
  task-CanStep w before t after split (p, sh, step) = record {
    after = moved w before t after p sh;
    step = move before t after p sh split step;
    nearer = work-moved rt config w before t after p sh split step;
    same_tasks = length-moved rt config w before t after p sh split;
    same_listers = refl;
  }

  lister-CanStep :
      (w : World) (before : List Lister) (l : Lister) (after : List Lister)
      → w.listers ≡ before ++ l ∷ after
      → Goes config.policy l.inquiry l.stage w.shared
      → CanStep w
  lister-CanStep w before l after split (s, sh, step) = record {
    after = relisted w before l after s sh;
    step = list before l after s sh split step;
    nearer = work-relisted rt config w before l after s sh split step;
    same_tasks = refl;
    same_listers = length-relisted rt config w before l after s sh split;
  }

  -- The lock is with a request that can go on.
  busy-CanStep : (w : World) → 1 ≤ lockers w.tasks + list_lockers w.listers → CanStep w
  busy-CanStep w some_has = elim (one_of (lockers w.tasks) (list_lockers w.listers) some_has) [
    | inl h ↦
        let (before, t, after, split, locker) =
          total-found (λ (t : Task). locks t.point) w.tasks h in
        task-CanStep w before t after split
          (lock-Advances rt config t.request t.point w.shared locker)
    | inr h ↦
        let (before, l, after, split, locker) =
          total-found (λ (l : Lister). keeps_lock l.stage) w.listers h in
        lister-CanStep w before l after split
          (lock-Goes config.policy l.inquiry l.stage w.shared locker)
  ]

  free-CanStep : (w : World) → w.shared.locked ≡ false → 1 ≤ left_in w → CanStep w
  free-CanStep w free some_left =
      elim (one_of (total lasting w.tasks) (total waiting w.listers) some_left) [
        | inl h ↦
            let (before, t, after, split, alive) = total-found lasting w.tasks h in
            task-CanStep w before t after split
              (free-Advances rt config t.request t.point w.shared free (omega (arith, alive)))
        | inr h ↦
            let (before, l, after, split, alive) = total-found waiting w.listers h in
            lister-CanStep w before l after split
              (free-Goes config.policy l.inquiry l.stage w.shared free (omega (arith, alive)))
      ]

  -- While a request has not ended, some request can take its next step.
  pub left_in-CanStep : (budget : ℕ) (w : World) → IsGuarded budget w → 1 ≤ left_in w → CanStep w
  left_in-CanStep budget w h some_left = elim (Bool-cases w.shared.locked) [
    | inl busy ↦ busy-CanStep w (omega (arith, rw busy at h.exclusive))
    | inr free ↦ free-CanStep w free some_left
  ]
