-- ===== src/Text.antt =====
-- Python's `str` operations that the program uses on its texts: `split`, `partition`.
use Prim.Native.Char.{Char, code}
use Prim.Native.String
use Prim.Native.String.{String}
use Prim.Native.String.append
use mathlib.Core.Path.{◌≡◌, refl, ap, ◌∙◌}
use mathlib.Core.Bool.{true, false}
use mathlib.Core.List.{List, [], ◌∷◌}
use sentinel_mcp.Prelude.{ℕ, ◌==◌, if◌then◌else◌, Bool-cases, inl, inr}

-- A character more for the first part.
abbrev extend : Char → List String → List String
extend c [] = String.◌∷◌ c String.[] ∷ []
extend c (w ∷ ws) = String.◌∷◌ c w ∷ ws

-- s.split(d) for one character d: never empty
unfoldable pub split : ℕ → String → List String
split d String.[] = "" ∷ []
split d (String.◌∷◌ c s) = let rest = split d s in if code c == d then "" ∷ rest else extend c rest

-- s.split(d, 1)[0] and s.partition(d)[0]
unfoldable pub before : ℕ → String → String
before d String.[] = ""
before d (String.◌∷◌ c s) = let rest = before d s in if code c == d then "" else String.◌∷◌ c rest

-- s.partition(d)[2]
unfoldable pub after : ℕ → String → String
after d String.[] = ""
after d (String.◌∷◌ c s) = let rest = after d s in if code c == d then s else rest

abbrev pub first : List String → String
first [] = ""
first (w ∷ ws) = w

first-extend : (c : Char) (ws : List String) → first (extend c ws) ≡ String.◌∷◌ c (first ws)
first-extend c [] = refl
first-extend c (w ∷ ws) = refl

-- The first part of a split is what stands before the first separator.
pub first-split : (d : ℕ) (s : String) → first (split d s) ≡ before d s
unfolding split before
first-split d String.[] = refl
first-split d (String.◌∷◌ c s) = elim (Bool-cases (code c == d)) [
  | inl e ↦ rw e
  | inr e ↦ rw e (rw (first-extend c (split d s), first-split d s))
]

-- The text has its only separator at its end.
abbrev pub EndsAt : ℕ → String → Type 0
EndsAt d String.[] = ⊥
EndsAt d (String.◌∷◌ c String.[]) = (code c == d) ≡ true
EndsAt d (String.◌∷◌ c s) = ((code c == d) ≡ false) × EndsAt d s

-- What a text is cut into at the first separator, if it begins with such a text.
pub cut-append :
    (d : ℕ) (s t : String)
    → EndsAt d s
    → (before d (String.◌++◌ s t) ≡ before d s) × (after d (String.◌++◌ s t) ≡ t)
unfolding before after
cut-append d String.[] t h = elim h [ ]
cut-append d (String.◌∷◌ c String.[]) t h =
    let at_once = append.cons c "" t ∙ ap (λ x. String.◌∷◌ c x) (append.nil t) in
    (ap (before d) at_once ∙ rw h refl, ap (after d) at_once ∙ rw h refl)
cut-append d (String.◌∷◌ c (String.◌∷◌ e s)) t (other, h) =
    let one_on = append.cons c (String.◌∷◌ e s) t in
    let (same, rest) = cut-append d (String.◌∷◌ e s) t h in
    (ap (before d) one_on ∙ rw (other, same) refl, ap (after d) one_on ∙ rw (other, rest) refl)
