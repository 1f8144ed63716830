-- ===== src/Bridge/Authenticated.antt =====
-- The middleware of sentinelmcp/gateway/identity.py around the call handler of
-- sentinelmcp/gateway/bridge.py, as sentinelmcp/gateway/server.py puts them together; the protocol layer
-- between them, which runs the handler in the request's context, is left out.
use mathlib.Core.Option.{some-injective}
use sentinel_mcp.Prelude.{
  ◌≡◌, refl, ap, sym, ◌∙◌, ◌⊎◌, inl, inr, List, [], ◌∷◌, ◌++◌, String, Option,
}
use sentinel_mcp.Prelude.Dict.{Dict}
use sentinel_mcp.Json.{Fields}
use sentinel_mcp.Exec.{Exec}
use sentinel_mcp.Identity.Resolver.{configured, configure}
use sentinel_mcp.Identity.Resolver.Keys.{resolve_iff}
use sentinel_mcp.Identity.Middleware.{
  Scope, Context, Response, header_values, authenticated_as, answering, call, current_principal,
}
use sentinel_mcp.Identity.Middleware.Authentication.{Authentic, call-http}
use sentinel_mcp.Bridge.Results.{CallToolResult}
use sentinel_mcp.Bridge.State.{Gateway, Runtime, Config, Surroundings}
use sentinel_mcp.Bridge.CallTool.{or_end, attempt, handle_call_tool}
use sentinel_mcp.Bridge.CallTool.Forwarding.{Forwardable, forwarded-attempt}

-- What the upstream was asked, after a request.
abbrev forwarded_after : {A : Type 0} → A × Context Gateway → List (String × Fields)
forwarded_after (r, context) = context.world.forwarded

module _ (digest : String → String) (environ : Dict String) (pairs : List (String × String))
    (digests : Dict String) (started : configure digest environ pairs ≡ configured digests)
    (rt : Runtime) (config : Config) (s : Surroundings) (name : String)
    (arguments : Option Fields) where
  Authentic-unique :
      (scope : Scope) (p q : String)
      → Authentic rt.lower_other digest environ pairs scope p
      → Authentic rt.lower_other digest environ pairs scope q
      → p ≡ q
  Authentic-unique scope p q a b =
      let values = header_values rt.lower_other scope.headers in
      some-injective p q (
        sym ((resolve_iff digest environ pairs digests values p started).1 a)
        ∙ (resolve_iff digest environ pairs digests values q started).1 b)

  -- `tools/call` behind the middleware.
  abbrev pub served : Scope → Exec (Context Gateway) (Response CallToolResult)
  served = call rt.lower_other digest digests (λ scope. handle_call_tool rt config s name arguments)

  forwarded-authenticated_as :
      (p : String) (context : Context Gateway)
      → forwarded_after
          (answering (authenticated_as p (handle_call_tool rt config s name arguments)) context)
        ≡ (attempt rt config s p name (or_end arguments) context.world).1.forwarded
  unfolding authenticated_as handle_call_tool current_principal
  forwarded-authenticated_as p context = refl

  -- The upstream gets a call of an HTTP request exactly when the request presents the key of some
  -- principal that is permitted the call, and no timeout of zero stops it before it starts: then once,
  -- with the request's tool name and arguments; otherwise the upstream gets nothing.
  pub forwarded-served :
      (scope : Scope) (context : Context Gateway)
      → scope.kind ≡ "http"
      → ((p : String) × Authentic rt.lower_other digest environ pairs scope p
          × Forwardable rt config s p name (or_end arguments) context.world
          × ((served scope context).1.world.forwarded
              ≡ context.world.forwarded ++ (name, or_end arguments) ∷ []))
        ⊎ (((p : String)
              → Authentic rt.lower_other digest environ pairs scope p
              → ¬ Forwardable rt config s p name (or_end arguments) context.world)
            × ((served scope context).1.world.forwarded ≡ context.world.forwarded))
  forwarded-served scope context http =
      elim (call-http rt.lower_other digest environ pairs digests started
        (λ scope. handle_call_tool rt config s name arguments) scope context http) [
          | inl (same, nobody) ↦ inr ((λ p a m. nobody p a), ap forwarded_after same)
          | inr (p, a, same, reset) ↦
              let asked = ap forwarded_after same ∙ forwarded-authenticated_as p context in
              elim (forwarded-attempt rt config s p name (or_end arguments) context.world) [
                | inl (m, once) ↦ inl (p, a, m, asked ∙ once)
                | inr (not_permitted, nothing) ↦ inr (
                  (λ q b m. not_permitted (rw (Authentic-unique scope p q a b) m)),
                  asked ∙ nothing,
                )
              ]
        ]
