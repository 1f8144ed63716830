-- ===== src/Identity/Middleware.antt =====
-- `BearerAuthMiddleware` and `current_principal` of sentinelmcp/gateway/identity.py. A header's name and
-- value are the texts that `latin-1` decodes them to. The wrapped application is any action on the
-- request's context variable and on a state of its own.
pub mod Authentication
use sentinel_mcp.Prelude.{
  ℕ, Bool, Option, none, some, List, [], ◌∷◌, String, str_eq, if◌then◌else◌, ◌==◌, ◌&&◌, true,
  false,
}
use sentinel_mcp.Prelude.Dict.{Dict}
use sentinel_mcp.Exec.{error, Outcome, ok, Exec, pure}
use sentinel_mcp.Audit.Names.{codes, lower}
use sentinel_mcp.Identity.Resolver.{resolve}

pub record Scope : Type 0 where
  pub kind : String
  pub headers : List (String × String)

-- `_principal_var`, and what else the application acts on.
pub record Context (W : Type 0) : Type 0 where
  pub principal_var : Option String
  pub world : W

pub data Response (R : Type 0) : Type 0 where
  unauthenticated : Response R
  answered : R → Response R

abbrev same_codes : List ℕ → List ℕ → Bool
same_codes [] [] = true
same_codes (c ∷ s) (d ∷ t) = c == d && same_codes s t
same_codes _ _ = false

module _ (lower_other : ℕ → List ℕ) where
  -- `name.lower() == "authorization"`
  abbrev pub is_authorization : String → Bool
  is_authorization name = same_codes (lower lower_other (codes name)) (codes "authorization")

  unfoldable pub header_values : List (String × String) → List String
  header_values [] = []
  header_values ((name, value) ∷ rest) =
      let later = header_values rest in if is_authorization name then value ∷ later else later

abbrev pub answer : {R : Type 0} → Outcome R → Outcome (Response R)
answer (ok r) = ok (answered r)
answer (Outcome.raised e) = Outcome.raised e

module _ {W R : Type 0} where
  -- The variable is set for the block, and reset however the block ends.
  unfoldable pub authenticated_as : String → Exec (Context W) R → Exec (Context W) R
  authenticated_as principal block context =
      let (outcome, after) = block (record context { principal_var = some principal }) in
      (outcome, record after { principal_var = context.principal_var })

  abbrev pub answering : Exec (Context W) R → Exec (Context W) (Response R)
  answering app context = let (outcome, after) = app context in (answer outcome, after)

  module _ (lower_other : ℕ → List ℕ) (digest : String → String) (digests : Dict String) where
    -- __call__
    pub call : (Scope → Exec (Context W) R) → Scope → Exec (Context W) (Response R)
    unfolding header_values authenticated_as
    call app scope =
        if str_eq scope.kind "http"
        then elim (resolve digest digests (header_values lower_other scope.headers)) [
          | none ↦ pure unauthenticated
          | some principal ↦ answering (authenticated_as principal (app scope))
        ]
        else answering (app scope)

-- current_principal()
unfoldable pub current_principal : {W : Type 0} → Exec (Context W) String
current_principal context = elim context.principal_var [
  | none ↦ (
    Outcome.raised (error "current_principal() called with no authenticated principal in context"),
    context,
  )
  | some principal ↦ (ok principal, context)
]
