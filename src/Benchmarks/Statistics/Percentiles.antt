-- ===== src/Benchmarks/Statistics/Percentiles.antt =====
-- The percentiles of benchmarks/run.py beside each other.
use Prim.Native.Nat.{◌/◌, ◌%◌}
use native.Mathlib.Nat.{add-mul, mul-add, mul-le-mul_left}
use sentinel_mcp.Prelude.{
  ap, true, false, ℕ, zero, suc, ◌+◌, ◌-◌, ◌*◌, ◌≤◌, ◌<◌, ◌≡◌, ◌⊎◌, inl, inr, List, [], ◌∷◌, arith,
  ◌==◌, length, All,
}
use sentinel_mcp.Benchmarks.Statistics.Sorting.{IsSorted}
use sentinel_mcp.Benchmarks.Statistics.{at_index, value_at}

at_index_ge :
    (v : ℕ) (vs : List ℕ) (i : ℕ) → All (λ w. v ≤ w) vs → i < length vs → v ≤ at_index i vs
unfolding at_index
at_index_ge v [] i h low = absurd (omega (arith, low))
at_index_ge v (w ∷ ws) zero (here, h) low = here
at_index_ge v (w ∷ ws) (suc i) (here, h) low = at_index_ge v ws i h (omega (arith, low))

at_index_mono :
    (vs : List ℕ) (i j : ℕ) → IsSorted vs → i ≤ j → j < length vs → at_index i vs ≤ at_index j vs
unfolding at_index
at_index_mono [] i j h up low = omega arith
at_index_mono (v ∷ vs) zero zero h up low = omega arith
at_index_mono (v ∷ vs) zero (suc j) (first, h) up low =
    at_index_ge v vs j first (omega (arith, low))
at_index_mono (v ∷ vs) (suc i) zero h up low = absurd (omega (arith, up))
at_index_mono (v ∷ vs) (suc i) (suc j) (first, h) up low =
    at_index_mono vs i j h (omega (arith, up)) (omega (arith, low))

-- A weighted mean is the lesser value and its part of the difference.
blend_eq : (a d r s : ℕ) → r + s ≡ 100 → a * s + (a + d) * r ≡ 100 * a + d * r
blend_eq a d r s h =
    let whole : a * (r + s) ≡ a * 100 = ap (λ x. a * x) h in
    omega (arith, add-mul a d r, mul-add a r s, whole)

le_cases : (m n : ℕ) → (m ≤ n) ⊎ (n < m)
le_cases m n = ground arith

eq_cases : (m n : ℕ) → (((m == n) ≡ true) × (m ≡ n)) ⊎ ((m == n) ≡ false)
eq_cases m n = ground arith

-- Two places have an index between them, or the same two neighbours.
gap_cases :
    (x y : ℕ)
    → x ≤ y
    → ((x + 99) / 100 ≤ y / 100) ⊎ ((x / 100 ≡ y / 100) × ((x + 99) / 100 ≡ (y + 99) / 100))
gap_cases x y up = elim (le_cases ((x + 99) / 100) (y / 100)) [
  | inl apart ↦ inl apart
  | inr close ↦ inr (omega (arith, up, close), omega (arith, up, close))
]

module _ (vs : List ℕ) (h : IsSorted vs) where
  abbrev low : ℕ → ℕ
  low x = at_index (x / 100) vs

  abbrev high : ℕ → ℕ
  high x = at_index ((x + 99) / 100) vs

  -- The part of the difference that is added.
  abbrev part : ℕ → ℕ
  part x = (high x - low x) * (x % 100)

  -- A place that is no more than the last.
  abbrev IsPlace : ℕ → Type 0
  IsPlace x = (x + 99) / 100 < length vs

  low-high : (x : ℕ) → IsPlace x → low x ≤ high x
  low-high x in_range = at_index_mono vs (x / 100) ((x + 99) / 100) h (omega arith) in_range

  value_at_eq : (x : ℕ) → IsPlace x → value_at x vs ≡ 100 * low x + part x
  unfolding value_at
  value_at_eq x in_range = elim (eq_cases (x / 100) ((x + 99) / 100)) [
    | inl (test, same) ↦
        let exact : x % 100 ≡ 0 = omega (arith, same) in
        let nothing : part x ≡ (high x - low x) * 0 = ap (λ k. (high x - low x) * k) exact in
        rw test (omega (arith, nothing))
    | inr test ↦
        let total : low x + (high x - low x) ≡ high x = omega (arith, low-high x in_range) in
        let as_high : (low x + (high x - low x)) * (x % 100) ≡ high x * (x % 100) =
          ap (λ k. k * (x % 100)) total in
        rw test (
          omega (
            arith,
            as_high,
            blend_eq (low x) (high x - low x) (x % 100) (100 - x % 100) (omega arith),
          ))
  ]

  -- The value at a place lies between its neighbours.
  value_at_between :
      (x : ℕ) → IsPlace x → (100 * low x ≤ value_at x vs) × (value_at x vs ≤ 100 * high x)
  value_at_between x in_range =
      let capped = mul-le-mul_left {m = x % 100} {n = 100} (high x - low x) (omega arith) in
      (
        omega (arith, value_at_eq x in_range),
        omega (arith, value_at_eq x in_range, capped, low-high x in_range),
      )

  value_at_mono : (x y : ℕ) → x ≤ y → IsPlace y → value_at x vs ≤ value_at y vs
  value_at_mono x y up in_range =
      let in_range' : IsPlace x = omega (arith, up, in_range) in
      elim (gap_cases x y up) [
        | inl apart ↦
            let steps =
              at_index_mono vs ((x + 99) / 100) (y / 100) h apart (omega (arith, in_range)) in
            omega (arith, steps, (value_at_between x in_range').1, (value_at_between y in_range).0)
        | inr (same, next_one) ↦
            let lows = ap (λ i. at_index i vs) same in
            let highs = ap (λ i. at_index i vs) next_one in
            let parts : part x ≡ (high y - low y) * (x % 100) =
              ap (λ d. d * (x % 100)) (omega (arith, lows, highs)) in
            let more =
              mul-le-mul_left {m = x % 100} {n = y % 100} (high y - low y)
                (omega (arith, up, same)) in
            omega (arith, value_at_eq x in_range', value_at_eq y in_range, lows, parts, more)
      ]

-- The places of a percentile are in range.
place_in_range : (n pct : ℕ) → pct ≤ 100 → (n * pct + 99) / 100 < suc n
place_in_range n pct top = let low = mul-le-mul_left {m = pct} {n = 100} n top in omega (arith, low)

abbrev pub at_percent : ℕ → ℕ → List ℕ → ℕ
at_percent pct v vs = value_at (length vs * pct) (v ∷ vs)

-- Of sorted values, a higher percentile is not less.
pub at_percent_mono :
    (v : ℕ) (vs : List ℕ) (p q : ℕ)
    → IsSorted (v ∷ vs)
    → p ≤ q
    → q ≤ 100
    → at_percent p v vs ≤ at_percent q v vs
at_percent_mono v vs p q h up top =
    value_at_mono (v ∷ vs) h (length vs * p) (length vs * q)
      (mul-le-mul_left {m = p} {n = q} (length vs) up) (place_in_range (length vs) q top)

at_index-All : (P : ℕ → Type 0) (vs : List ℕ) (i : ℕ) → All P vs → i < length vs → P (at_index i vs)
unfolding at_index
at_index-All P [] i h low = absurd (omega (arith, low))
at_index-All P (v ∷ vs) zero (here, h) low = here
at_index-All P (v ∷ vs) (suc i) (here, h) low = at_index-All P vs i h (omega (arith, low))

-- A percentile lies between any bounds of the values.
pub at_percent_bounds :
    (v : ℕ) (vs : List ℕ) (pct lo hi : ℕ)
    → IsSorted (v ∷ vs)
    → All (λ w. (lo ≤ w) × (w ≤ hi)) (v ∷ vs)
    → pct ≤ 100
    → (100 * lo ≤ at_percent pct v vs) × (at_percent pct v vs ≤ 100 * hi)
at_percent_bounds v vs pct lo hi h within top =
    let x = length vs * pct in
    let in_range = place_in_range (length vs) pct top in
    let between = value_at_between (v ∷ vs) h x in_range in
    let bounded = λ (i : ℕ) (low : i < length (v ∷ vs)).
      at_index-All (λ w. (lo ≤ w) × (w ≤ hi)) (v ∷ vs) i within low in
    (
      omega (arith, between.0, (bounded (x / 100) (omega (arith, in_range))).0),
      omega (arith, between.1, (bounded ((x + 99) / 100) in_range).1),
    )
