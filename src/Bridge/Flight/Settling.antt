-- ===== src/Bridge/Flight/Settling.antt =====
-- How the requests of a World come to their ends, for `handle_call_tool` and `handle_list_tools` of
-- sentinelmcp/gateway/bridge.py.
use sentinel_mcp.Prelude.{ℕ, zero, suc, ◌≤◌, ◌≡◌, refl, ◌∙◌, ◌⊎◌, inl, inr, arith, length}
use sentinel_mcp.Bridge.State.{Runtime, Config}
use sentinel_mcp.Bridge.Flight.Fetches.{IsGuarded, tasks-IsGuarded}
use sentinel_mcp.Bridge.Flight.Records.{endings}
use sentinel_mcp.Bridge.Flight.Progress.{work_of}
use sentinel_mcp.Bridge.Flight.Waiting.{
  answerings, lasting-endings, waiting-answerings, left_in, left_in-CanStep,
}
use sentinel_mcp.Bridge.Flight.World.{World, Reach, here, next}

none_or_some : (n : ℕ) → (1 ≤ n) ⊎ (n ≡ 0)
none_or_some n = ground arith

module _ (rt : Runtime) (config : Config) where
  -- A run of the requests that are there, to the end of all of them.
  pub record Settled (w : World) (calls lists : ℕ) : Type 0 where
    pub last : World
    pub run : Reach rt config w last
    pub same_tasks : length last.tasks ≡ calls
    pub all_ended : endings last.tasks ≡ calls
    pub same_listers : length last.listers ≡ lists
    pub all_answered : answerings last.listers ≡ lists

  none_left-Settled :
      (w u : World)
      → Reach rt config w u
      → left_in u ≡ 0
      → Settled w (length u.tasks) (length u.listers)
  none_left-Settled w u reached empty = record {
    last = u;
    run = reached;
    same_tasks = refl;
    all_ended = omega (arith, empty, lasting-endings u.tasks);
    same_listers = refl;
    all_answered = omega (arith, empty, waiting-answerings u.listers);
  }

  Settled-within :
      (n budget : ℕ) (w u : World)
      → IsGuarded budget w
      → Reach rt config w u
      → work_of u ≤ n
      → Settled w (length u.tasks) (length u.listers)
  Settled-within zero budget w u h reached low = elim (none_or_some (left_in u)) [
    | inl left ↦
        let m =
          left_in-CanStep rt config budget u (tasks-IsGuarded rt config budget h reached) left in
        absurd (omega (arith, low, m.nearer))
    | inr empty ↦ none_left-Settled w u reached empty
  ]
  Settled-within (suc n) budget w u h reached low = elim (none_or_some (left_in u)) [
    | inl left ↦
        let m =
          left_in-CanStep rt config budget u (tasks-IsGuarded rt config budget h reached) left in
        let settled =
          Settled-within n budget w m.after h (next reached m.step)
            (omega (arith, low, m.nearer)) in
        record {
          last = settled.last;
          run = settled.run;
          same_tasks = settled.same_tasks ∙ m.same_tasks;
          all_ended = settled.all_ended ∙ m.same_tasks;
          same_listers = settled.same_listers ∙ m.same_listers;
          all_answered = settled.all_answered ∙ m.same_listers;
        }
    | inr empty ↦ none_left-Settled w u reached empty
  ]

  -- From any world that keeps the cache's invariant, whatever requests are in flight: if no further
  -- request arrives, they can be run until every `tools/call` and every `tools/list` request has ended,
  -- and none is lost on the way.
  pub tasks-Settled :
      (budget : ℕ) (w : World) → IsGuarded budget w → Settled w (length w.tasks) (length w.listers)
  tasks-Settled budget w h = Settled-within (work_of w) budget w w h here (omega arith)
