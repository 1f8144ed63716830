-- ===== src/Tests/Traffics.antt =====
-- HTTP requests at one gateway: one with a key, one without.
use sentinel_mcp.Prelude.{
  ℕ, zero, suc, ◌≡◌, refl, false, some, List, [], ◌∷◌, All, String, inl, inr, Option-cases,
}
use sentinel_mcp.Prelude.Dict.{Dict}
use sentinel_mcp.Bridge.State.{Config}
use sentinel_mcp.Bridge.Flight.{advance}
use sentinel_mcp.Bridge.Flight.World.{Task, World, moved}
use sentinel_mcp.Bridge.Flight.Traffic.{Post, Traffic, quiet, post, call_step, admit, posted}
use sentinel_mcp.Bridge.Flight.Traffic.Admission.{IsEntitled, forwarded-IsEntitled}
use sentinel_mcp.Tests.Samples.{runtime, config, surroundings, gateway, three}
use sentinel_mcp.Tests.Identities.{digest, environ, pairs, digests, started, scope}
use sentinel_mcp.Identity.Middleware.{Scope}

abbrev pub reading : Post
reading = record {
  scope = scope;
  surroundings = surroundings [];
  tool_name = "read";
  arguments = some three;
}

abbrev keyless : Scope
keyless = record { kind = "http"; headers = [] }

abbrev intruding : Post
intruding = record reading { scope = keyless }

abbrev idle : World
idle = record { shared = record { gateway = gateway; locked = false }; tasks = []; listers = [] }

module _ (config : Config) (digests : Dict String) (w : World) where
  abbrev pub Future : Type 0
  Future = (u : World) × Traffic runtime config digest digests w u

  -- The first task takes a step, if there is one and it can.
  abbrev pub play_first : (f : Future) → (tasks : List Task) → f.0.tasks ≡ tasks → Future
  play_first f [] e = f
  play_first f (t ∷ after) e =
      elim (Option-cases (advance runtime config t.request t.point f.0.shared)) [
        | inl stays ↦ f
        | inr ((q, sh), step) ↦ (moved f.0 [] t after q sh, call_step f.1 [] t after q sh e step)
      ]

  abbrev pub play : ℕ → Future → Future
  play zero f = f
  play (suc n) f = play n (play_first f f.0.tasks refl)

  -- Two requests come in, one of them without a key, and the one that is let in goes as far as the
  -- upstream.
  abbrev pub both_posted : Future
  both_posted = play 4 (
    admit runtime config digest digests (admit runtime config digest digests w intruding) reading,
    post (post quiet intruding refl) reading refl,
  )

abbrev future : Future config digests idle
future = both_posted config digests idle

forwarded-IsEntitled_example :
    All
      (IsEntitled runtime config digest environ pairs digests started
        (posted runtime config digest digests future.1))
      future.0.shared.gateway.forwarded
forwarded-IsEntitled_example =
    forwarded-IsEntitled runtime config digest environ pairs digests started idle future.0 refl refl
      future.1
