-- ===== src/Examples/Demo.antt =====
-- The credentials of the client in examples/demo.py, against `IdentityResolver` and
-- `BearerAuthMiddleware` of sentinelmcp/gateway/identity.py. How the HTTP library sends a header is left
-- out: the middleware is taken to get the name and the value that the client gave.
use Prim.Native.String
use mathlib.Core.List.{head-eq_of_cons-eq}
use mathlib.Core.Path.{subst}
use sentinel_mcp.Prelude.{
  ℕ, ◌≡◌, ◌≢◌, ◌↔◌, refl, ap, ◌∙◌, sym, Option, none, some, List, [], ◌∷◌, String,
}
use sentinel_mcp.Prelude.Dict.{Dict}
use sentinel_mcp.Text.{before, after, cut-append}
use sentinel_mcp.Audit.Names.{lower}
use sentinel_mcp.Identity.Resolver.{configured, configure, resolve, space}
use sentinel_mcp.Identity.Resolver.Keys.{HasKey, resolve_iff}
use sentinel_mcp.Identity.Middleware.{header_values}

-- The headers of `_authed_client`: `{"Authorization": f"Bearer {api_key}"}`, or none without a key.
abbrev pub authed_headers : Option String → List (String × String)
authed_headers none = []
authed_headers (some api_key) = ("Authorization", String.◌++◌ "Bearer " api_key) ∷ []

module _ (lower_other : ℕ → List ℕ) where
  header_values-authed :
      (api_key : String)
      → header_values lower_other (authed_headers (some api_key))
        ≡ String.◌++◌ "Bearer " api_key ∷ []
  unfolding header_values lower
  header_values-authed api_key = refl

  cut :
      (api_key : String)
      → (before space (String.◌++◌ "Bearer " api_key) ≡ "Bearer")
        × (after space (String.◌++◌ "Bearer " api_key) ≡ api_key)
  unfolding before
  cut api_key =
      cut-append space "Bearer " api_key (refl, (refl, (refl, (refl, (refl, (refl, refl))))))

  module _ (digest : String → String) (environ : Dict String) (pairs : List (String × String))
      (digests : Dict String) (started : configure digest environ pairs ≡ configured digests) where
    abbrev resolved : Option String → Option String
    resolved api_key = resolve digest digests (header_values lower_other (authed_headers api_key))

    -- What the client sends with a key that is not empty, spaces in it or not, resolves to a principal
    -- exactly when the key has the digest of the key that the environment holds for that principal.
    pub resolve-authed_headers_iff :
        (api_key p : String)
        → api_key ≢ ""
        → (resolved (some api_key) ≡ some p) ↔ HasKey digest environ p (digest api_key) pairs
    resolve-authed_headers_iff api_key p nonempty =
        let (scheme, token) = cut api_key in
        let sent = header_values-authed api_key in
        let values = header_values lower_other (authed_headers (some api_key)) in
        let iff = resolve_iff digest environ pairs digests values p started in
        (
          (λ found.
              let presented = iff.0 found in
              let same = head-eq_of_cons-eq (sym presented.single ∙ sent) in
              subst (λ key. HasKey digest environ p (digest key) pairs)
                (ap (after space) same ∙ token) presented.keyed),
          λ key. iff.1 (record {
            value = String.◌++◌ "Bearer " api_key;
            single = sent;
            scheme = scheme;
            token = λ empty. nonempty (sym token ∙ empty);
            keyed = subst (λ k. HasKey digest environ p (digest k) pairs) (sym token) key;
          }),
        )
