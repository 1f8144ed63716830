-- ===== src/Prelude/Lists.antt =====
-- Lists: length over the native numbers, Boolean and propositional quantifiers, membership of texts.
use Prim.Native.Nat.{ℕ, zero, suc, ◌+◌, ◌≤◌}
use Prim.Native.String.{String}
use mathlib.Core.Path.{◌≡◌, refl, ap}
use mathlib.Core.Logic.{◌↔◌, ◌⊎◌, inl, inr}
use mathlib.Core.Bool.{Bool, true, false, ◌||◌}
use mathlib.Core.List.{List, [], ◌∷◌, ◌++◌}
use native.Mathlib.Omega.{arith}
use text.Mathlib.Text.{◌==◌ as str_eq}
use text.Mathlib.TextEquality.{eq_iff}

module _ {ℓ} {A : Type ℓ} where
  abbrev pub length : List A → ℕ
  length [] = 0
  length (x ∷ xs) = suc (length xs)

  pub length-append : (xs ys : List A) → length (xs ++ ys) ≡ length xs + length ys
  length-append [] ys = omega arith
  length-append (x ∷ xs) ys = omega (arith, length-append xs ys)

  abbrev pub any : (A → Bool) → List A → Bool
  any p [] = false
  any p (x ∷ xs) = p x || any p xs

zero_cases : (n : ℕ) → (n ≡ 0) ⊎ (1 ≤ n)
zero_cases zero = inl refl
zero_cases (suc n) = inr (omega arith)

-- The sum of a weight over a list.
module _ {ℓ} {A : Type ℓ} (w : A → ℕ) where
  abbrev pub total : List A → ℕ
  total [] = 0
  total (x ∷ xs) = total xs + w x

  pub total-middle :
      (xs : List A) (y : A) (ys : List A) → total (xs ++ y ∷ ys) ≡ total (xs ++ ys) + w y
  total-middle [] y ys = refl
  total-middle (x ∷ xs) y ys = omega (arith, total-middle xs y ys)

  -- A total that is not zero has a place where it comes from.
  pub total-found :
      (xs : List A)
      → 1 ≤ total xs
      → (before : List A) × (y : A) × (after : List A) × (xs ≡ before ++ y ∷ after) × (1 ≤ w y)
  total-found [] h = absurd (omega (arith, h))
  total-found (x ∷ xs) h = elim (zero_cases (w x)) [
    | inl nothing ↦
        let (before, y, after, split, some_here) = total-found xs (omega (arith, h, nothing)) in
        (x ∷ before, y, after, ap (λ zs. x ∷ zs) split, some_here)
    | inr some_here ↦ ([], x, xs, refl, some_here)
  ]

  pub total-append : (xs ys : List A) → total (xs ++ ys) ≡ total xs + total ys
  total-append [] ys = omega arith
  total-append (x ∷ xs) ys = omega (arith, total-append xs ys)

module _ {ℓ κ} {A : Type ℓ} (P : A → Type κ) where
  abbrev pub All : List A → Type κ
  All [] = Unit
  All (x ∷ xs) = P x × All xs

  pub All-append : (xs ys : List A) → All xs → All ys → All (xs ++ ys)
  All-append [] ys h k = k
  All-append (x ∷ xs) ys (here, h) k = (here, All-append xs ys h k)

  pub All-replace :
      (xs : List A) (y z : A) (ys : List A) → P z → All (xs ++ y ∷ ys) → All (xs ++ z ∷ ys)
  All-replace [] y z ys k (here, h) = (k, h)
  All-replace (x ∷ xs) y z ys k (here, h) = (here, All-replace xs y z ys k h)

  pub All-middle : (xs : List A) (y : A) (ys : List A) → All (xs ++ y ∷ ys) → P y
  All-middle [] y ys (here, h) = here
  All-middle (x ∷ xs) y ys (here, h) = All-middle xs y ys h

pub All-map {ℓ κ} :
    {A : Type ℓ} (P Q : A → Type κ) → ((x : A) → P x → Q x) → (xs : List A) → All P xs → All Q xs
All-map P Q f [] h = tt
All-map P Q f (x ∷ xs) (here, h) = (f x here, All-map P Q f xs h)

-- Two lists of one length that are related place by place.
module _ {ℓ κ} {A : Type ℓ} {B : Type κ} (R : A → B → Type 0) where
  abbrev pub Matches : List A → List B → Type 0
  Matches [] [] = Unit
  Matches [] (y ∷ ys) = ⊥
  Matches (x ∷ xs) [] = ⊥
  Matches (x ∷ xs) (y ∷ ys) = R x y × Matches xs ys

  pub Matches-append :
      (xs xs' : List A) (ys ys' : List B)
      → Matches xs ys
      → Matches xs' ys'
      → Matches (xs ++ xs') (ys ++ ys')
  Matches-append [] xs' [] ys' h k = k
  Matches-append [] xs' (y ∷ ys) ys' h k = elim h [ ]
  Matches-append (x ∷ xs) xs' [] ys' h k = elim h [ ]
  Matches-append (x ∷ xs) xs' (y ∷ ys) ys' (here, h) k = (here, Matches-append xs xs' ys ys' h k)

-- `name in names`
abbrev pub elem : String → List String → Bool
elem s [] = false
elem s (t ∷ ts) = str_eq s t || elem s ts

-- `name in names`, as a statement.
abbrev pub IsIn : String → List String → Type 0
IsIn s [] = ⊥
IsIn s (t ∷ ts) = (s ≡ t) ⊎ IsIn s ts

pub elem_iff : (s : String) (ts : List String) → (elem s ts ≡ true) ↔ IsIn s ts
elem_iff s [] = ground arith
elem_iff s (t ∷ ts) = ground (arith, eq_iff s t, elem_iff s ts)

pub elem-append : (s : String) (xs ys : List String) → elem s (xs ++ ys) ≡ (elem s xs || elem s ys)
elem-append s [] ys = refl
elem-append s (x ∷ xs) ys = ground (arith, elem-append s xs ys)
