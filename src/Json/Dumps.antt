-- ===== src/Json/Dumps.antt =====
-- `json.dumps` with `separators=(",", ":")`, as `AuditLogger._serialize` of
-- sentinelmcp/telemetry/audit.py calls it: ASCII output, an object's entries in their order. What `repr`
-- gives for a finite `float` is a parameter. Texts are sequences of Unicode scalar values.
pub mod Plain
use Prim.Native.Nat.{◌/◌, ◌%◌}
use Prim.Native.Char.{Char, code}
use Prim.Native.String.{String}
use sentinel_mcp.Prelude.{
  ℕ, zero, suc, ◌+◌, ◌-◌, true, false, ◌&&◌, List, [], ◌∷◌, ◌++◌, leb, ltb, ◌==◌, if◌then◌else◌,
}
use sentinel_mcp.Prelude.Int.{ℤ, pos, negsuc}
use sentinel_mcp.Float.{Float, nan, pos_inf, neg_inf, frac}
use sentinel_mcp.Json.{
  Json, null, bool, int, float, str, arr, obj, Items, nil, item, Fields, end, field,
}

abbrev pub chars : String → List Char
chars String.[] = []
chars (String.◌∷◌ c s) = c ∷ chars s

abbrev pub string_of : List Char → String
string_of [] = String.[]
string_of (c ∷ cs) = String.◌∷◌ c (string_of cs)

abbrev pub nth : List Char → ℕ → Char
nth [] n = "0"
nth (c ∷ cs) zero = c
nth (c ∷ cs) (suc n) = nth cs n

abbrev pub hex_digits : List Char
hex_digits =
    "0" ∷ "1" ∷ "2" ∷ "3" ∷ "4" ∷ "5" ∷ "6" ∷ "7" ∷ "8" ∷ "9" ∷ "a" ∷ "b" ∷ "c" ∷ "d" ∷ "e" ∷ "f"
    ∷ []

abbrev pub digit : ℕ → Char
digit n = nth hex_digits n

-- a backslash, `u`, and four hexadecimal digits
unfoldable pub unicode : ℕ → List Char
unicode n =
    "\\"
    ∷ "u"
    ∷ digit ((n / 4096) % 16)
    ∷ digit ((n / 256) % 16)
    ∷ digit ((n / 16) % 16)
    ∷ digit (n % 16)
    ∷ []

-- What is neither printable ASCII nor has an escape of its own; beyond U+FFFF two surrogates.
abbrev pub numbered : ℕ → List Char
numbered n =
    if ltb n 65536
    then unicode n
    else unicode (55296 + (n - 65536) / 1024) ++ unicode (56320 + (n - 65536) % 1024)

unfoldable pub escape : Char → List Char
unfolding unicode
escape c =
    if code c == 34
    then "\\" ∷ "\"" ∷ []
    else if code c == 92
    then "\\" ∷ "\\" ∷ []
    else if code c == 10
    then "\\" ∷ "n" ∷ []
    else if code c == 13
    then "\\" ∷ "r" ∷ []
    else if code c == 9
    then "\\" ∷ "t" ∷ []
    else if code c == 12
    then "\\" ∷ "f" ∷ []
    else if code c == 8
    then "\\" ∷ "b" ∷ []
    else if leb 32 (code c) && leb (code c) 126
    then c ∷ []
    else numbered (code c)

unfoldable pub escaped : String → List Char
unfolding escape
escaped String.[] = []
escaped (String.◌∷◌ c s) = escape c ++ escaped s

abbrev pub quoted : String → List Char
quoted s = "\"" ∷ escaped s ++ "\"" ∷ []

-- One more, in decimal digits from the last to the first.
unfoldable pub increment : List ℕ → List ℕ
increment [] = 1 ∷ []
increment (d ∷ ds) = let carried = increment ds in if d == 9 then 0 ∷ carried else suc d ∷ ds

unfoldable pub digits_of : ℕ → List ℕ
unfolding increment
digits_of zero = 0 ∷ []
digits_of (suc n) = increment (digits_of n)

abbrev pub from_last : List ℕ → List Char
from_last [] = []
from_last (d ∷ ds) = from_last ds ++ digit d ∷ []

abbrev pub int_text : ℤ → List Char
int_text (pos n) = from_last (digits_of n)
int_text (negsuc n) = "-" ∷ from_last (digits_of (suc n))

module _ (float_repr : Float → String) where
  abbrev pub float_text : Float → List Char
  float_text nan = chars "NaN"
  float_text pos_inf = chars "Infinity"
  float_text neg_inf = chars "-Infinity"
  float_text (frac a b) = chars (float_repr (frac a b))

  unfoldable mutual
    unfolding escaped digits_of

    pub text_of : Json → List Char
    text_of null = chars "null"
    text_of (bool true) = chars "true"
    text_of (bool false) = chars "false"
    text_of (int n) = int_text n
    text_of (float x) = float_text x
    text_of (str s) = quoted s
    text_of (arr nil) = chars "[]"
    text_of (arr (item v vs)) = "[" ∷ text_of v ++ more_items vs ++ "]" ∷ []
    text_of (obj end) = chars "{}"
    text_of (obj (field k v fs)) = "{" ∷ quoted k ++ ":" ∷ text_of v ++ more_fields fs ++ "}" ∷ []

    pub more_items : Items → List Char
    more_items nil = []
    more_items (item v vs) = "," ∷ text_of v ++ more_items vs

    pub more_fields : Fields → List Char
    more_fields end = []
    more_fields (field k v fs) = "," ∷ quoted k ++ ":" ∷ text_of v ++ more_fields fs

  unfoldable pub dumps : Json → String
  unfolding text_of
  dumps v = string_of (text_of v)
