-- ===== src/Bridge/Flight/Accounts.antt =====
-- The audit log of `handle_call_tool` (sentinelmcp/gateway/bridge.py) among the tasks of a World, record
-- by record.
use sentinel_mcp.Prelude.{
  ◌≡◌, refl, sym, ap, ◌∙◌, List, [], ◌∷◌, ◌++◌, String, arith, All, Matches, Matches-append, total,
  total-middle, total-append,
}
use mathlib.Core.List.{Perm, perm_middle, append-nil, append_assoc, perm_append_singleton}
use mathlib.Core.List.Perm
use sentinel_mcp.Bridge.State.{Runtime, Config, Request}
use sentinel_mcp.Bridge.Runs.{WritesAll}
use sentinel_mcp.Bridge.Flight.{Shared, Point}
use sentinel_mcp.Bridge.Flight.Advancing.{advance-Move}
use sentinel_mcp.Bridge.Flight.Logs.{log_of}
use sentinel_mcp.Bridge.Flight.Records.{
  faults_of, pending_of, tasks-IsLogged, WritesAll-faults, no_tasks-IsLogged,
}
use sentinel_mcp.Bridge.Flight.Inquiry.Proceeding.{proceed-Proceeds, Proceeds-Leaves}
use sentinel_mcp.Bridge.Flight.World.{
  Task, World, newcomer, arrive, move, ask, list, Reach, here, next,
}
use sentinel_mcp.Bridge.Flight.Written.{
  ending, ended_requests, ended_requests-append, IsRecordOf, Tells, silent, telling, Move-Tells,
}

module _ (rt : Runtime) (config : Config) where
  -- The lines after `base` are those of records, one for each task that has ended and each of another.
  pub record Account (base : List String) (tasks : List Task) (log : List String) : Type 0 where
    pub lines : List String
    pub requests : List Request
    pub added : log ≡ base ++ lines
    pub each : Matches (IsRecordOf rt config) requests lines
    pub all : Perm requests (ended_requests tasks)

  same-Account :
      (base : List String) (tasks tasks' : List Task) (log log' : List String)
      → log' ≡ log
      → ended_requests tasks' ≡ ended_requests tasks
      → Account base tasks log
      → Account base tasks' log'
  same-Account base tasks tasks' log log' same as_ended a = record {
    lines = a.lines;
    requests = a.requests;
    added = same ∙ a.added;
    each = a.each;
    all = rw as_ended a.all;
  }

  ended_requests-middle :
      (before : List Task) (t : Task) (after : List Task)
      → ended_requests (before ++ t ∷ after)
        ≡ ended_requests before ++ (ending t.request t.point ++ ended_requests after)
  ended_requests-middle before t after = ended_requests-append before (t ∷ after)

  module _ (base : List String) (before : List Task) (t : Task) (after : List Task)
      (p : Point) where
    abbrev t' : Task
    t' = record t { point = p }

    as_before :
        ending t.request p ≡ ending t.request t.point
        → ended_requests (before ++ t' ∷ after) ≡ ended_requests (before ++ t ∷ after)
    as_before same =
        ended_requests-middle before t' after
        ∙ ap (λ rs. ended_requests before ++ (rs ++ ended_requests after)) same
        ∙ sym (ended_requests-middle before t after)

    one_more :
        ending t.request t.point ≡ []
        → ending t.request p ≡ t.request ∷ []
        → (requests : List Request) → Perm requests (ended_requests (before ++ t ∷ after))
        → Perm (requests ++ t.request ∷ []) (ended_requests (before ++ t' ∷ after))
    one_more was is requests all =
        let there = ended_requests-middle before t after in
        let here = ended_requests-middle before t' after in
        rw (here, is)
          (Perm.trans (perm_append_singleton t.request requests) (
            Perm.trans (Perm.cons t.request (rw (there, was) at all))
              (Perm.symm (perm_middle (ended_requests before) (ended_requests after)))))

    move-Account :
        (sh sh' : Shared)
        → Tells rt config t.request t.point sh p sh'
        → Account base (before ++ t ∷ after) (log_of sh)
        → Account base (before ++ t' ∷ after) (log_of sh')
    move-Account sh sh' (silent same as_ended) a =
        same-Account base (before ++ t ∷ after) (before ++ t' ∷ after) (log_of sh) (log_of sh') same
          (as_before as_ended) a
    move-Account sh sh' (telling new more right was is) a = record {
      lines = a.lines ++ new ∷ [];
      requests = a.requests ++ t.request ∷ [];
      added = more ∙ ap (λ ls. ls ++ new ∷ []) a.added ∙ append_assoc base a.lines (new ∷ []);
      each =
          Matches-append (IsRecordOf rt config) a.requests (t.request ∷ []) a.lines (new ∷ [])
            a.each (right, tt);
      all = one_more was is a.requests a.all;
    }

  module _ (w : World) (no_tasks : w.tasks ≡ []) where
    abbrev base : List String
    base = log_of w.shared

    tasks-Account :
        {u : World}
        → Reach rt config w u
        → total faults_of u.tasks ≡ 0
        → Account base u.tasks (log_of u.shared)
    tasks-Account here fine = record {
      lines = [];
      requests = [];
      added = sym (append-nil base);
      each = tt;
      all = rw no_tasks (Perm.refl []);
    }
    tasks-Account (next {u} reached (arrive r)) fine =
        let new = newcomer r ∷ [] in
        same-Account base u.tasks (u.tasks ++ new) (log_of u.shared) (log_of u.shared) refl
          (ended_requests-append u.tasks new ∙ append-nil (ended_requests u.tasks))
          (tasks-Account reached (omega (arith, fine, total-append faults_of u.tasks new)))
    tasks-Account (next reached (ask i)) fine = tasks-Account reached fine
    tasks-Account (next {u} reached (list before l after s sh split step)) fine =
        let kept =
          Proceeds-Leaves config.policy l.inquiry
            (proceed-Proceeds config.policy l.inquiry l.stage s u.shared sh step) in
        same-Account base u.tasks u.tasks (log_of u.shared) (log_of sh) kept.same_log refl
          (tasks-Account reached fine)
    tasks-Account (next {u} reached (move before t after p sh split step)) fine =
        let logged = tasks-IsLogged rt config _ (no_tasks-IsLogged w no_tasks) reached in
        let faults =
          ap (total faults_of) split
          ∙ total-middle faults_of before t after
          ∙ sym (total-middle faults_of before (record t { point = p }) after) in
        let pendings = ap (total pending_of) split ∙ total-middle pending_of before t after in
        move-Account base before t after p u.shared sh
          (Move-Tells rt config t.request
            (advance-Move rt config t.request t.point p u.shared sh step)
            (omega (arith, logged.foreseen, faults, pendings, fine)))
          (rw split at (tasks-Account reached (omega (arith, faults, fine))))

    -- From a gateway without tasks, however many requests arrive and however their steps interleave, if
    -- no audit write of theirs fails: at any time the log is what it was, then lines that are records,
    -- one for each `tools/call` request that has ended and none for another, each with that request's
    -- correlation id, principal, tool name and arguments.
    pub log-tasks :
        {u : World}
        → Reach rt config w u
        → All (λ t. WritesAll t.request) u.tasks
        → Account base u.tasks (log_of u.shared)
    log-tasks {u} reached fine = tasks-Account reached (WritesAll-faults u.tasks fine)
