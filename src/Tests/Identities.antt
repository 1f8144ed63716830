-- ===== src/Tests/Identities.antt =====
-- Keys and the middleware (sentinelmcp/gateway/identity.py) for one principal.
use Prim.Native.String
use sentinel_mcp.Prelude.{ℕ, ◌≡◌, refl, ◌↔◌, false, none, some, List, [], ◌∷◌, String}
use sentinel_mcp.Prelude.Dict.{Dict, get, put}
use sentinel_mcp.Exec.{Exec}
use sentinel_mcp.Audit.Names.{lower}
use sentinel_mcp.Identity.Resolver.{configured, key_of, configure, resolve}
use sentinel_mcp.Identity.Resolver.Keys.{Presents, resolve_iff}
use sentinel_mcp.Identity.Middleware.{Scope, Context, is_authorization, current_principal}
use sentinel_mcp.Tests.Samples.{runtime}

abbrev pub digest : String → String
digest key = String.◌++◌ "digest of " key

abbrev pub environ : Dict String
environ = ("ALICE_KEY", "k-1") ∷ []

abbrev pub pairs : List (String × String)
pairs = ("alice", "ALICE_KEY") ∷ []

abbrev pub digests : Dict String
digests = ("digest of k-1", "alice") ∷ []

pub started : configure digest environ pairs ≡ configured digests
unfolding configure key_of get put
started = refl

resolve_iff_example :
    (resolve digest digests ("Bearer k-1" ∷ []) ≡ some "alice")
    ↔ Presents digest environ pairs ("Bearer k-1" ∷ []) "alice"
resolve_iff_example = resolve_iff digest environ pairs digests ("Bearer k-1" ∷ []) "alice" started

abbrev pub scope : Scope
scope = record { kind = "http"; headers = ("Authorization", "Bearer k-1") ∷ [] }

abbrev context : Context ℕ
context = record { principal_var = none; world = 0 }

-- The application that gives back who is calling.
abbrev who : Scope → Exec (Context ℕ) String
who s = current_principal

other : is_authorization runtime.lower_other "accept" ≡ false
unfolding lower
other = refl
