-- ===== src/Identity/Middleware/Authentication.antt =====
-- Who gets past `BearerAuthMiddleware` of sentinelmcp/gateway/identity.py, and as whom.
use sentinel_mcp.Prelude.{
  ◌≡◌, refl, ◌⊎◌, inl, inr, false, List, [], ◌∷◌, ◌++◌, String, eq_iff, Option-cases, ℕ,
}
use sentinel_mcp.Prelude.Dict.{Dict}
use sentinel_mcp.Exec.{ok, Exec}
use sentinel_mcp.Identity.Resolver.{configured, configure, resolve}
use sentinel_mcp.Identity.Resolver.Keys.{Presents, resolve_iff}
use sentinel_mcp.Identity.Middleware.{
  Scope, Context, unauthenticated, is_authorization, header_values, authenticated_as, answering,
  call, current_principal,
}

module _ (lower_other : ℕ → List ℕ) (digest : String → String) (environ : Dict String)
    (pairs : List (String × String)) where
  -- The principal whose key the scope's `Authorization` headers present.
  abbrev pub Authentic : Scope → String → Type 0
  Authentic scope p = Presents digest environ pairs (header_values lower_other scope.headers) p

module _ {W R : Type 0} (lower_other : ℕ → List ℕ) (digest : String → String)
    (environ : Dict String) (pairs : List (String × String)) (digests : Dict String)
    (started : configure digest environ pairs ≡ configured digests) where
  pub call-http :
      (app : Scope → Exec (Context W) R) (scope : Scope) (context : Context W)
      → scope.kind ≡ "http"
      → ((call lower_other digest digests app scope context ≡ (ok unauthenticated, context))
          × ((p : String) → ¬ Authentic lower_other digest environ pairs scope p))
        ⊎ ((p : String) × Authentic lower_other digest environ pairs scope p
            × (call lower_other digest digests app scope context
                ≡ answering (authenticated_as p (app scope)) context)
            × ((call lower_other digest digests app scope context).1.principal_var
                ≡ context.principal_var))
  unfolding call
  call-http app scope context http =
      let values = header_values lower_other scope.headers in
      let test = (eq_iff scope.kind "http").1 http in
      elim (Option-cases (resolve digest digests values)) [
        | inl nobody ↦ inl (
          rw (test, nobody) refl,
          λ p a. cc ((resolve_iff digest environ pairs digests values p started).1 a, nobody),
        )
        | inr (p, found) ↦ inr (
          p,
          (resolve_iff digest environ pairs digests values p started).0 found,
          rw (test, found) refl,
          rw (test, found) refl,
        )
      ]

-- A header of another name, wherever it stands, does not change the values that are resolved.
header_values-other :
    (lower_other : ℕ → List ℕ) (before after : List (String × String)) (name value : String)
    → is_authorization lower_other name ≡ false
    → header_values lower_other (before ++ (name, value) ∷ after)
      ≡ header_values lower_other (before ++ after)
unfolding header_values
header_values-other lower_other [] after name value other = rw other refl
header_values-other lower_other ((n, v) ∷ before) after name value other =
    rw (header_values-other lower_other before after name value other) refl

-- Inside the block `current_principal` gives the principal of the block.
pub current_principal-authenticated_as :
    {W : Type 0} (p : String) (context : Context W)
    → (authenticated_as p current_principal context).0 ≡ ok p
unfolding current_principal authenticated_as
current_principal-authenticated_as p context = refl
