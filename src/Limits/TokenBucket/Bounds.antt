-- ===== src/Limits/TokenBucket/Bounds.antt =====
-- How much `TokenBucket` of sentinelmcp/gateway/limits.py grants.
use sentinel_mcp.Prelude.{
  ℕ, suc, ◌+◌, ◌-◌, ◌*◌, ◌≤◌, ◌≡◌, true, List, [], ◌∷◌, arith, if◌then◌else◌, ap, Bool-cases, inl,
  inr,
}
use sentinel_mcp.Limits.TokenBucket.{TokenBucket, try_consume}

-- The bucket holds no more than its capacity.
abbrev pub IsValid : TokenBucket → Type 0
IsValid b = b.tokens ≤ b.capacity

-- Every attempt leaves the bucket with no more than its capacity.
pub try_consume-IsValid : (b : TokenBucket) (amount now : ℕ) → IsValid (try_consume b amount now).0
unfolding try_consume
try_consume-IsValid b amount now = ground arith

-- Calls at the given times, in order: the final bucket, and how many were granted.
unfoldable pub serve : TokenBucket → ℕ → List ℕ → TokenBucket × ℕ
serve b amount [] = (b, 0)
serve b amount (now ∷ times) =
    let (b', granted) = try_consume b amount now in
    let (b'', count) = serve b' amount times in (b'', (if granted then suc count else count))

-- The times do not go back, from `t` on; the last of them.
abbrev pub IsMonotone : ℕ → List ℕ → Type 0
IsMonotone t [] = Unit
IsMonotone t (now ∷ times) = (t ≤ now) × IsMonotone now times

abbrev pub last : ℕ → List ℕ → ℕ
last t [] = t
last t (now ∷ times) = last now times

-- One call: what is granted and what is left come from what was there and what has flowed in.
consume_balance :
    (b : TokenBucket) (amount now : ℕ)
    → (if (try_consume b amount now).1 then amount else 0) + (try_consume b amount now).0.tokens
      ≤ b.tokens + (now - b.last_refill) * b.refill_rate
unfolding try_consume
consume_balance b amount now = ground arith

rate-try_consume :
    (b : TokenBucket) (amount now : ℕ) → (try_consume b amount now).0.refill_rate ≡ b.refill_rate
unfolding try_consume
rate-try_consume b amount now = ground arith

last_refill-try_consume :
    (b : TokenBucket) (amount now : ℕ) → (try_consume b amount now).0.last_refill ≡ now
unfolding try_consume
last_refill-try_consume b amount now = ground arith

capacity-try_consume :
    (b : TokenBucket) (amount now : ℕ) → (try_consume b amount now).0.capacity ≡ b.capacity
unfolding try_consume
capacity-try_consume b amount now = ground arith

pub le-last : (t : ℕ) (times : List ℕ) → IsMonotone t times → t ≤ last t times
le-last t [] h = omega arith
le-last t (now ∷ times) (h, hs) = omega (arith, le-last now times hs)

-- What flows in over two stretches is what flows in over both.
pub flow-split : (a b c r : ℕ) → a ≤ b → b ≤ c → (b - a) * r + (c - b) * r ≡ (c - a) * r
flow-split a b c r h k =
    let e : (b - a) + (c - b) ≡ c - a = omega arith in omega (arith, ap (λ (t : ℕ). t * r) e)

serve-balance :
    (b : TokenBucket) (amount : ℕ) (times : List ℕ)
    → IsMonotone b.last_refill times
    → (serve b amount times).1 * amount + (serve b amount times).0.tokens
      ≤ b.tokens + (last b.last_refill times - b.last_refill) * b.refill_rate
unfolding serve
serve-balance b amount [] h = omega arith
serve-balance b amount (now ∷ times) (h, hs) =
    let ih =
      serve-balance (try_consume b amount now).0 amount times
        (rw (last_refill-try_consume b amount now) hs) in
    let later = rw (last_refill-try_consume b amount now, rate-try_consume b amount now) at ih in
    let flow =
      flow-split b.last_refill now (last now times) b.refill_rate h (le-last now times hs) in
    elim (Bool-cases (try_consume b amount now).1) [
      | inl granted ↦
          rw granted (omega (arith, later, flow, rw granted at (consume_balance b amount now)))
      | inr refused ↦
          rw refused (omega (arith, later, flow, rw refused at (consume_balance b amount now)))
    ]

-- The first call of a stretch refills up to the capacity at most.
first_call :
    (b : TokenBucket) (amount now : ℕ)
    → (if (try_consume b amount now).1 then amount else 0) + (try_consume b amount now).0.tokens
      ≤ b.capacity
unfolding try_consume
first_call b amount now = ground arith

-- Over calls at times that do not go back, from a first call at `now`, what is granted is at most
-- the capacity and the rate times the time from the first call to the last: a burst of the capacity,
-- then the configured rate. It holds from any state of the bucket, however long it was left alone.
pub serve-le :
    (b : TokenBucket) (amount now : ℕ) (times : List ℕ)
    → IsMonotone now times
    → (serve b amount (now ∷ times)).1 * amount
      ≤ b.capacity + (last now times - now) * b.refill_rate
unfolding serve
serve-le b amount now times h =
    let b' = (try_consume b amount now).0 in
    let rest =
      rw (last_refill-try_consume b amount now, rate-try_consume b amount now) at
        (serve-balance b' amount times (rw (last_refill-try_consume b amount now) h)) in
    elim (Bool-cases (try_consume b amount now).1) [
      | inl granted ↦ rw granted (omega (arith, rest, rw granted at (first_call b amount now)))
      | inr refused ↦ rw refused (omega (arith, rest, rw refused at (first_call b amount now)))
    ]

-- A bucket that was left alone long enough for one amount to flow in grants it.
try_consume_waits :
    (b : TokenBucket) (amount now : ℕ)
    → amount ≤ b.capacity
    → amount ≤ (now - b.last_refill) * b.refill_rate
    → (try_consume b amount now).1 ≡ true
unfolding try_consume
try_consume_waits b amount now h k = ground arith
