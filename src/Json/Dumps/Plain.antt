-- ===== src/Json/Dumps/Plain.antt =====
-- The characters that `json.dumps` writes, for the lines of sentinelmcp/telemetry/audit.py.
use Prim.Native.Nat.{◌/◌, ◌%◌}
use Prim.Native.Char.{Char, code}
use Prim.Native.String.{String}
use sentinel_mcp.Prelude.{
  ℕ, zero, suc, ◌≤◌, Bool, true, false, ◌&&◌, List, [], ◌∷◌, ◌++◌, leb, ltb, ◌==◌, if◌then◌else◌,
  arith, All, All-append, inl, inr, Bool-cases,
}
use sentinel_mcp.Prelude.Int.{ℤ, pos, negsuc}
use sentinel_mcp.Float.{Float, nan, pos_inf, neg_inf, frac}
use sentinel_mcp.Json.{
  Json, null, bool, int, float, str, arr, obj, Items, nil, item, Fields, end, field,
}
use sentinel_mcp.Json.Dumps.{
  chars, nth, hex_digits, digit, unicode, numbered, escape, escaped, quoted, digits_of, from_last,
  int_text, float_text, text_of, more_items, more_fields,
}

-- No control character.
abbrev pub IsPlain : Char → Type 0
IsPlain c = 32 ≤ code c

abbrev pub AllPlain : List Char → Type 0
AllPlain = All IsPlain

both : (xs ys : List Char) → AllPlain xs → AllPlain ys → AllPlain (xs ++ ys)
both = All-append IsPlain

joined :
    (xs ys zs : List Char) → AllPlain xs → AllPlain ys → AllPlain zs → AllPlain ((xs ++ ys) ++ zs)
joined xs ys zs h k j = both (xs ++ ys) zs (both xs ys h k) j

nth-IsPlain : (cs : List Char) (n : ℕ) → AllPlain cs → IsPlain (nth cs n)
nth-IsPlain [] n h = omega arith
nth-IsPlain (c ∷ cs) zero (here, h) = here
nth-IsPlain (c ∷ cs) (suc n) (here, h) = nth-IsPlain cs n h

digit-IsPlain : (n : ℕ) → IsPlain (digit n)
digit-IsPlain n = nth-IsPlain hex_digits n (ground arith)

unicode-AllPlain : (n : ℕ) → AllPlain (unicode n)
unfolding unicode
unicode-AllPlain n = ground (
  arith,
  digit-IsPlain ((n / 4096) % 16),
  digit-IsPlain ((n / 256) % 16),
  digit-IsPlain ((n / 16) % 16),
  digit-IsPlain (n % 16),
)

numbered-AllPlain : (n : ℕ) → AllPlain (numbered n)
numbered-AllPlain n = elim (Bool-cases (ltb n 65536)) [
  | inl short ↦ rw short (unicode-AllPlain n)
  | inr long ↦ rw long (both (unicode _) (unicode _) (unicode-AllPlain _) (unicode-AllPlain _))
]

-- A choice of two is plain where both are.
either :
    (b : Bool) (xs ys : List Char) → AllPlain xs → AllPlain ys → AllPlain (if b then xs else ys)
either true xs ys h k = h
either false xs ys h k = k

itself :
    (c : Char)
    → AllPlain (if leb 32 (code c) && leb (code c) 126 then c ∷ [] else numbered (code c))
itself c = elim (Bool-cases (leb 32 (code c) && leb (code c) 126)) [
  | inl printable ↦ rw printable (ground arith, tt)
  | inr other ↦ rw other (numbered-AllPlain (code c))
]

escape-AllPlain : (c : Char) → AllPlain (escape c)
unfolding escape
escape-AllPlain c = either (code c == 34) _ _ (ground arith) (
    either (code c == 92) _ _ (ground arith) (
      either (code c == 10) _ _ (ground arith) (
        either (code c == 13) _ _ (ground arith) (
          either (code c == 9) _ _ (ground arith) (
            either (code c == 12) _ _ (ground arith)
              (either (code c == 8) _ _ (ground arith) (itself c)))))))

escaped-AllPlain : (s : String) → AllPlain (escaped s)
unfolding escaped
escaped-AllPlain String.[] = tt
escaped-AllPlain (String.◌∷◌ c s) =
    both (escape c) (escaped s) (escape-AllPlain c) (escaped-AllPlain s)

quoted-AllPlain : (s : String) → AllPlain (quoted s)
quoted-AllPlain s = (omega arith, both (escaped s) _ (escaped-AllPlain s) (omega arith, tt))

from_last-AllPlain : (ds : List ℕ) → AllPlain (from_last ds)
from_last-AllPlain [] = tt
from_last-AllPlain (d ∷ ds) = both (from_last ds) _ (from_last-AllPlain ds) (digit-IsPlain d, tt)

int_text-AllPlain : (n : ℤ) → AllPlain (int_text n)
int_text-AllPlain (pos n) = from_last-AllPlain (digits_of n)
int_text-AllPlain (negsuc n) = (omega arith, from_last-AllPlain (digits_of (suc n)))

module _ (float_repr : Float → String) (plain : (x : Float) → AllPlain (chars (float_repr x))) where
  float_text-AllPlain : (x : Float) → AllPlain (float_text float_repr x)
  float_text-AllPlain nan = ground arith
  float_text-AllPlain pos_inf = ground arith
  float_text-AllPlain neg_inf = ground arith
  float_text-AllPlain (frac a b) = plain (frac a b)

  mutual
    unfolding text_of

    pub text_of-AllPlain : (v : Json) → AllPlain (text_of float_repr v)
    text_of-AllPlain null = ground arith
    text_of-AllPlain (bool true) = ground arith
    text_of-AllPlain (bool false) = ground arith
    text_of-AllPlain (int n) = int_text-AllPlain n
    text_of-AllPlain (float x) = float_text-AllPlain x
    text_of-AllPlain (str s) = quoted-AllPlain s
    text_of-AllPlain (arr nil) = ground arith
    text_of-AllPlain (arr (item v vs)) =
        joined ("[" ∷ text_of float_repr v) (more_items float_repr vs) ("]" ∷ [])
          (omega arith, text_of-AllPlain v) (more_items-AllPlain vs) (omega arith, tt)
    text_of-AllPlain (obj end) = ground arith
    text_of-AllPlain (obj (field k v fs)) =
        joined (("{" ∷ quoted k) ++ ":" ∷ text_of float_repr v) (more_fields float_repr fs)
          ("}" ∷ [])
          (both ("{" ∷ quoted k) (":" ∷ text_of float_repr v) (omega arith, quoted-AllPlain k)
            (omega arith, text_of-AllPlain v))
          (more_fields-AllPlain fs) (omega arith, tt)

    more_items-AllPlain : (vs : Items) → AllPlain (more_items float_repr vs)
    more_items-AllPlain nil = tt
    more_items-AllPlain (item v vs) =
        both ("," ∷ text_of float_repr v) (more_items float_repr vs)
          (omega arith, text_of-AllPlain v) (more_items-AllPlain vs)

    more_fields-AllPlain : (fs : Fields) → AllPlain (more_fields float_repr fs)
    more_fields-AllPlain end = tt
    more_fields-AllPlain (field k v fs) =
        joined ("," ∷ quoted k) (":" ∷ text_of float_repr v) (more_fields float_repr fs)
          (omega arith, quoted-AllPlain k) (omega arith, text_of-AllPlain v)
          (more_fields-AllPlain fs)
