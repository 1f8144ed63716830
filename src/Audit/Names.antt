-- ===== src/Audit/Names.antt =====
-- `_normalize_name` and `_is_sensitive_name` of sentinelmcp/telemetry/audit.py, over the code points of
-- a name. Python's `lower` is written out for ASCII; what it makes of any other code point is the
-- parameter `lower_other`. (The one rule of `lower` that looks at the neighbours chooses between two
-- forms of the Greek sigma, neither of which is in a fragment.)
pub mod Laws
use Prim.Native.Char.{code}
use Prim.Native.String.{String}
use sentinel_mcp.Prelude.{
  ℕ, ◌+◌, Bool, true, false, ◌&&◌, ◌||◌, List, [], ◌∷◌, ◌++◌, any, leb, ltb, ◌==◌, if◌then◌else◌,
}

abbrev pub codes : String → List ℕ
codes String.[] = []
codes (String.◌∷◌ c s) = code c ∷ codes s

-- text.startswith(prefix)
unfoldable pub starts : List ℕ → List ℕ → Bool
starts [] text = true
starts (c ∷ prefix) [] = false
starts (c ∷ prefix) (d ∷ text) = c == d && starts prefix text

-- fragment in text
unfoldable pub contains : List ℕ → List ℕ → Bool
unfolding starts
contains fragment [] = starts fragment []
contains fragment (c ∷ text) = starts fragment (c ∷ text) || contains fragment text

-- re.sub(r"[_-]", "", name)
unfoldable pub strip : List ℕ → List ℕ
strip [] = []
strip (c ∷ text) = let rest = strip text in if c == b'_' || c == b'-' then rest else c ∷ rest

abbrev pub sensitive_name_fragments : List String
sensitive_name_fragments =
    "password" ∷ "secret" ∷ "token" ∷ "api_key" ∷ "authorization" ∷ "credential" ∷ []

module _ (lower_other : ℕ → List ℕ) where
  unfoldable pub lower_code : ℕ → List ℕ
  lower_code c =
      if leb b'A' c && leb c b'Z'
      then (c + 32) ∷ []
      else if ltb c 128
      then c ∷ []
      else lower_other c

  unfoldable pub lower : List ℕ → List ℕ
  unfolding lower_code
  lower [] = []
  lower (c ∷ text) = lower_code c ++ lower text

  unfoldable pub normalize_name : String → List ℕ
  unfolding lower strip
  normalize_name name = strip (lower (codes name))

  unfoldable pub is_sensitive_name : String → Bool
  unfolding normalize_name contains
  is_sensitive_name name =
      any (λ fragment. contains (normalize_name fragment) (normalize_name name))
        sensitive_name_fragments
