-- ===== src/Identity/Resolver.antt =====
-- `IdentityResolver` of sentinelmcp/gateway/identity.py. `digest` is the SHA-256 hex digest of a text's
-- UTF-8 bytes, `environ` the process environment.
pub mod Keys
pub mod StartUp
use sentinel_mcp.Prelude.{
  ℕ, not, ◌&&◌, Option, none, some, List, [], ◌∷◌, String, str_eq, if◌then◌else◌,
}
use sentinel_mcp.Prelude.Dict.{Dict, get, put}
use sentinel_mcp.Text.{before, after}

-- IdentityConfigError, with what its message names.
pub data IdentityConfigError : Type 0 where
  key_not_set : (principal env_var : String) → IdentityConfigError
  same_key : (existing principal env_var : String) → IdentityConfigError

pub data Configured : Type 0 where
  configured : (digest_to_principal : Dict String) → Configured
  refused : IdentityConfigError → Configured

-- `key = os.environ.get(env_var)`, where an empty key is none (`if not key`)
abbrev nonempty : Option String → Option String
nonempty none = none
nonempty (some key) = if str_eq key "" then none else some key

unfoldable pub key_of : (environ : Dict String) → String → Option String
key_of environ env_var = nonempty (get env_var environ)

module _ (digest : String → String) (environ : Dict String) where
  -- the loop of `__init__`
  configure_from : Dict String → List (String × String) → Configured
  configure_from digests [] = configured digests
  configure_from digests ((principal, env_var) ∷ rest) = elim (key_of environ env_var) [
    | none ↦ refused (key_not_set principal env_var)
    | some key ↦ elim (get (digest key) digests) [
      | some existing ↦ refused (same_key existing principal env_var)
      | none ↦ configure_from (put (digest key) principal digests) rest
    ]
  ]

  unfoldable pub configure : List (String × String) → Configured
  unfolding configure_from
  configure principal_key_env = configure_from [] principal_key_env

abbrev pub space : ℕ
space = b' '

pub resolve : (digest : String → String) → Dict String → List String → Option String
resolve digest digests (value ∷ []) =
    if str_eq (before space value) "Bearer" && not (str_eq (after space value) "")
    then get (digest (after space value)) digests
    else none
resolve digest digests _ = none
