-- ===== src/Bridge/Flight/World.antt =====
-- The gateway with its tasks: one for each `tools/call` request and one for each `tools/list` request,
-- in any order of their steps: a request may arrive at any time, and any task that can take a step may
-- be the next to take one.
use sentinel_mcp.Prelude.{◌≡◌, some, List, [], ◌∷◌, ◌++◌}
use sentinel_mcp.Bridge.State.{Runtime, Config, Request}
use sentinel_mcp.Bridge.Flight.{Shared, Point, ready, advance}
use sentinel_mcp.Bridge.Flight.Inquiry.{Inquiry, Stage, queued, Lister, proceed}

pub record Task : Type 0 where
  pub request : Request
  pub point : Point

pub record World : Type 0 where
  pub shared : Shared
  pub tasks : List Task
  pub listers : List Lister

-- A step of the task between `before` and `after`.
abbrev pub moved : World → List Task → Task → List Task → Point → Shared → World
moved w before t after p sh = record w {
  shared = sh;
  tasks = before ++ record t { point = p } ∷ after;
}

abbrev pub newcomer : Request → Task
newcomer r = record { request = r; point = ready }

abbrev pub arrived : World → Request → World
arrived w r = record w { tasks = w.tasks ++ newcomer r ∷ [] }

-- A step of the `tools/list` request between `before` and `after`.
abbrev pub relisted : World → List Lister → Lister → List Lister → Stage → Shared → World
relisted w before l after s sh = record w {
  shared = sh;
  listers = before ++ record l { stage = s } ∷ after;
}

abbrev pub enquirer : Inquiry → Lister
enquirer i = record { inquiry = i; stage = queued }

abbrev pub asked : World → Inquiry → World
asked w i = record w { listers = w.listers ++ enquirer i ∷ [] }

module _ (rt : Runtime) (config : Config) where
  pub data Step (w : World) : World → Type 0 where
    arrive : (r : Request) → Step w (arrived w r)
    move :
        (before : List Task) (t : Task) (after : List Task) (p : Point) (sh : Shared)
        → w.tasks ≡ before ++ t ∷ after
        → advance rt config t.request t.point w.shared ≡ some (p, sh)
        → Step w (moved w before t after p sh)
    ask : (i : Inquiry) → Step w (asked w i)
    list :
        (before : List Lister) (l : Lister) (after : List Lister) (s : Stage) (sh : Shared)
        → w.listers ≡ before ++ l ∷ after
        → proceed config.policy l.inquiry l.stage w.shared ≡ some (s, sh)
        → Step w (relisted w before l after s sh)

  pub data Reach (w : World) : World → Type 0 where
    here : Reach w w
    next : {u v : World} → Reach w u → Step u v → Reach w v
