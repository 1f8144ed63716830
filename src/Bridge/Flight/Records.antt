-- ===== src/Bridge/Flight/Records.antt =====
-- The audit log of `handle_call_tool` (sentinelmcp/gateway/bridge.py) among the tasks of a World.
use sentinel_mcp.Prelude.{
  ℕ, ◌+◌, ◌≤◌, ◌≡◌, refl, sym, ap, ◌∙◌, List, [], ◌∷◌, ◌++◌, arith, length, All, total,
  total-middle, total-append,
}
use sentinel_mcp.Bridge.State.{Runtime, Config, Request}
use sentinel_mcp.Bridge.Runs.{WritesAll}
use sentinel_mcp.Bridge.Flight.{Shared, Point}
use sentinel_mcp.Bridge.Flight.Advancing.{advance-Move}
use sentinel_mcp.Bridge.Flight.Logs.{faulty, pending, ended, log_of, Logs, Move-Logs}
use sentinel_mcp.Bridge.Flight.Inquiry.Proceeding.{proceed-Proceeds, Proceeds-Leaves}
use sentinel_mcp.Bridge.Flight.World.{
  Task, World, moved, arrived, newcomer, arrive, move, ask, list, Reach, here, next,
}

abbrev pub faults_of : Task → ℕ
faults_of t = faulty t.request.surroundings.disk

abbrev pub pending_of : Task → ℕ
pending_of t = pending t.request t.point

abbrev ended_of : Task → ℕ
ended_of t = ended t.point

-- How many of the tasks have ended.
abbrev pub endings : List Task → ℕ
endings = total ended_of

-- The log has one line more than at the start for each task that has ended, unless a write goes wrong.
pub record IsLogged (start : ℕ) (w : World) : Type 0 where
  pub foreseen : total pending_of w.tasks ≤ total faults_of w.tasks
  pub counted : total faults_of w.tasks ≡ 0 → length (log_of w.shared) ≡ start + endings w.tasks

module _ (rt : Runtime) (config : Config) (start : ℕ) where
  arrive-IsLogged : (w : World) (r : Request) → IsLogged start w → IsLogged start (arrived w r)
  arrive-IsLogged w r h =
      let faults = total-append faults_of w.tasks (newcomer r ∷ []) in
      record {
        foreseen =
            omega (arith, total-append pending_of w.tasks (newcomer r ∷ []), faults, h.foreseen);
        counted = λ fine. omega (
          arith,
          total-append ended_of w.tasks (newcomer r ∷ []),
          h.counted (omega (arith, faults, fine)),
        );
      }

  move-IsLogged :
      (w : World) (before : List Task) (t : Task) (after : List Task) (p : Point) (sh : Shared)
      → w.tasks ≡ before ++ t ∷ after
      → Logs rt config t.request t.point w.shared p sh
      → IsLogged start w
      → IsLogged start (moved w before t after p sh)
  move-IsLogged w before t after p sh split logs h =
      let t' = record t { point = p } in
      let were = ap (total pending_of) split ∙ total-middle pending_of before t after in
      let are = total-middle pending_of before t' after in
      let faults =
        ap (total faults_of) split
        ∙ total-middle faults_of before t after
        ∙ sym (total-middle faults_of before t' after) in
      record {
        foreseen = omega (arith, were, are, faults, logs.faults, h.foreseen);
        counted = λ fine. omega (
          arith,
          logs.logged (omega (arith, were, faults, fine, h.foreseen)),
          h.counted (omega (arith, faults, fine)),
          ap endings split,
          total-middle ended_of before t after,
          total-middle ended_of before t' after,
        );
      }

  pub tasks-IsLogged :
      {w : World} {u : World} → IsLogged start w → Reach rt config w u → IsLogged start u
  tasks-IsLogged h here = h
  tasks-IsLogged h (next {u} reached (arrive r)) = arrive-IsLogged u r (tasks-IsLogged h reached)
  tasks-IsLogged h (next {u} reached (move before t after p sh split step)) =
      move-IsLogged u before t after p sh split
        (Move-Logs rt config t.request
          (advance-Move rt config t.request t.point p u.shared sh step))
        (tasks-IsLogged h reached)
  tasks-IsLogged h (next {u} reached (ask i)) =
      let had = tasks-IsLogged h reached in
      record { foreseen = had.foreseen; counted = had.counted }
  tasks-IsLogged h (next {u} reached (list before l after s sh split step)) =
      let had = tasks-IsLogged h reached in
      let kept =
        Proceeds-Leaves config.policy l.inquiry
          (proceed-Proceeds config.policy l.inquiry l.stage s u.shared sh step) in
      record {
        foreseen = had.foreseen;
        counted = λ fine. ap length kept.same_log ∙ had.counted fine;
      }

pub WritesAll-faults :
    (tasks : List Task) → All (λ t. WritesAll t.request) tasks → total faults_of tasks ≡ 0
WritesAll-faults [] h = refl
WritesAll-faults (t ∷ ts) (fine, h) =
    let none_here = ap faulty fine in omega (arith, none_here, WritesAll-faults ts h)

pub no_tasks-IsLogged : (w : World) → w.tasks ≡ [] → IsLogged (length w.shared.gateway.log) w
no_tasks-IsLogged w h = record {
  foreseen = rw h (omega arith);
  counted = λ fine. rw h (omega arith);
}

-- From a gateway without tasks, however many requests arrive and however their steps interleave, if no
-- audit write of theirs fails: at any time the log has one record for each task that has ended and none
-- for the others.
length-log-tasks :
    (rt : Runtime) (config : Config) (w u : World)
    → w.tasks ≡ []
    → Reach rt config w u
    → All (λ t. WritesAll t.request) u.tasks
    → length u.shared.gateway.log ≡ length w.shared.gateway.log + endings u.tasks
length-log-tasks rt config w u no_tasks reached fine =
    let start = no_tasks-IsLogged w no_tasks in
    (tasks-IsLogged rt config (length w.shared.gateway.log) start reached).counted
      (WritesAll-faults u.tasks fine)
