-- ===== src/Benchmarks/Statistics/Sorting.antt =====
-- `sorted` as benchmarks/run.py uses it.
use sentinel_mcp.Prelude.{
  ap, true, false, ℕ, suc, ◌≤◌, ◌≡◌, ◌⊎◌, inl, inr, refl, List, [], ◌∷◌, arith, leb, length, All,
  All-map, Bool-cases, ◌∙◌,
}
use sentinel_mcp.Benchmarks.Statistics.{insert, sorted}

-- Each value is at most the later ones.
abbrev pub IsSorted : List ℕ → Type 0
IsSorted [] = Unit
IsSorted (v ∷ vs) = All (λ w. v ≤ w) vs × IsSorted vs

leb_cases : (m n : ℕ) → ((leb m n ≡ true) × (m ≤ n)) ⊎ ((leb m n ≡ false) × (n ≤ m))
leb_cases m n = ground arith

insert-All : (P : ℕ → Type 0) (v : ℕ) (vs : List ℕ) → P v → All P vs → All P (insert v vs)
unfolding insert
insert-All P v [] here h = (here, tt)
insert-All P v (w ∷ ws) here (there, h) = elim (Bool-cases (leb v w)) [
  | inl e ↦ rw e (here, (there, h))
  | inr e ↦ rw e (there, insert-All P v ws here h)
]

pub sorted-All : (P : ℕ → Type 0) (vs : List ℕ) → All P vs → All P (sorted vs)
unfolding sorted
sorted-All P [] h = tt
sorted-All P (v ∷ vs) (here, h) = insert-All P v (sorted vs) here (sorted-All P vs h)

insert-IsSorted : (v : ℕ) (vs : List ℕ) → IsSorted vs → IsSorted (insert v vs)
unfolding insert
insert-IsSorted v [] h = (tt, tt)
insert-IsSorted v (w ∷ ws) (first, h) = elim (leb_cases v w) [
  | inl (e, less) ↦
      let above = All-map (λ x. w ≤ x) (λ x. v ≤ x) (λ x up. omega (arith, less, up)) ws first in
      rw e ((less, above), (first, h))
  | inr (e, more) ↦ rw e (insert-All (λ x. w ≤ x) v ws more first, insert-IsSorted v ws h)
]

pub sorted-IsSorted : (vs : List ℕ) → IsSorted (sorted vs)
unfolding sorted
sorted-IsSorted [] = tt
sorted-IsSorted (v ∷ vs) = insert-IsSorted v (sorted vs) (sorted-IsSorted vs)

length-insert : (v : ℕ) (vs : List ℕ) → length (insert v vs) ≡ suc (length vs)
unfolding insert
length-insert v [] = refl
length-insert v (w ∷ ws) = elim (Bool-cases (leb v w)) [
  | inl e ↦ rw e refl
  | inr e ↦ rw e (ap suc (length-insert v ws))
]

pub length-sorted : (vs : List ℕ) → length (sorted vs) ≡ length vs
unfolding sorted
length-sorted [] = refl
length-sorted (v ∷ vs) = length-insert v (sorted vs) ∙ ap suc (length-sorted vs)
