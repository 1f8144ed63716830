-- ===== src/Limits/Concurrency/Holders.antt =====
-- `ConcurrencyLimiter` of sentinelmcp/gateway/limits.py among concurrent tasks: any interleaving of
-- attempts and releases, where a task releases only what it was granted.
use sentinel_mcp.Prelude.{
  ℕ, ◌+◌, ◌-◌, ◌≤◌, ◌<◌, ◌≡◌, refl, ap, ◌∙◌, ◌↔◌, ◌&&◌, true, List, [], ◌∷◌, ◌++◌, String, arith,
  eq_iff, str_eq, if◌then◌else◌,
}
use sentinel_mcp.Prelude.Dict.{Dict, put, get-put}
use sentinel_mcp.Limits.Concurrency.{
  ConcurrencyLimiter, count_of, try_acquire, release, active_count, peak_count,
}

count_of-put :
    (k j : String) (n : ℕ) (d : Dict ℕ)
    → count_of j (put k n d) ≡ (if str_eq k j then n else count_of j d)
unfolding count_of
count_of-put k j n d = ground (arith, get-put k j n d)

-- What the calls do to the counts.
module _ (l : ConcurrencyLimiter) (p q : String) where
  pub active-try_acquire :
      active_count (try_acquire l p).0 q
      ≡ active_count l q + (if str_eq p q && (try_acquire l p).1 then 1 else 0)
  unfolding try_acquire
  active-try_acquire = ground (arith, count_of-put p q (active_count l p + 1) l.active, eq_iff p q)

  peak-try_acquire :
      (active_count l q ≤ peak_count l q)
      → active_count (try_acquire l p).0 q ≤ peak_count (try_acquire l p).0 q
  unfolding try_acquire
  peak-try_acquire h = ground (
    arith,
    count_of-put p q (active_count l p + 1) l.active,
    count_of-put p q (active_count l p + 1) l.peak,
    eq_iff p q,
  )

  pub active-release :
      active_count (release l p) q ≡ active_count l q - (if str_eq p q then 1 else 0)
  unfolding release
  active-release = ground (arith, count_of-put p q (active_count l p - 1) l.active, eq_iff p q)

  peak-release : peak_count (release l p) q ≡ peak_count l q
  unfolding release
  peak-release = refl

-- How many grants of a principal are held.
abbrev pub held : String → List String → ℕ
held q [] = 0
held q (p ∷ ps) = held q ps + (if str_eq p q then 1 else 0)

held-remove :
    (q p : String) (before after : List String)
    → held q (before ++ p ∷ after) ≡ held q (before ++ after) + (if str_eq p q then 1 else 0)
held-remove q p [] after = refl
held-remove q p (x ∷ before) after = omega (arith, held-remove q p before after)

-- The limiter, and the principals of the tasks that hold a grant.
pub record Running : Type 0 where
  pub limiter : ConcurrencyLimiter
  pub holders : List String

abbrev pub attempted : Running → String → Running
attempted s p = record {
  limiter = (try_acquire s.limiter p).0;
  holders = if (try_acquire s.limiter p).1 then p ∷ s.holders else s.holders;
}

pub data Step : Running → Running → Type 0 where
  attempt : (s : Running) (p : String) → Step s (attempted s p)
  finish :
      (s : Running) (p : String) (before after : List String)
      → s.holders ≡ before ++ p ∷ after
      → Step s (record { limiter = release s.limiter p; holders = before ++ after })

pub data Reach (s : Running) : Running → Type 0 where
  here : Reach s s
  next : {t u : Running} → Reach s t → Step t u → Reach s u

pub record IsExact (top : ℕ) (s : Running) : Type 0 where
  pub ceiling : s.limiter.max_concurrent ≡ top
  pub counted : (q : String) → active_count s.limiter q ≡ held q s.holders
  pub below : (q : String) → active_count s.limiter q ≤ top
  pub peaked : (q : String) → active_count s.limiter q ≤ peak_count s.limiter q
  pub peak_below : (q : String) → peak_count s.limiter q ≤ top

pub max-try_acquire :
    (l : ConcurrencyLimiter) (p : String) → (try_acquire l p).0.max_concurrent ≡ l.max_concurrent
unfolding try_acquire
max-try_acquire l p = ground arith

-- A grant is given exactly below the ceiling.
pub try_acquire_iff :
    (l : ConcurrencyLimiter) (p : String)
    → ((try_acquire l p).1 ≡ true) ↔ (active_count l p < l.max_concurrent)
unfolding try_acquire
try_acquire_iff l p = ground arith

pub max-release :
    (l : ConcurrencyLimiter) (p : String) → (release l p).max_concurrent ≡ l.max_concurrent
unfolding release
max-release l p = refl

pub active-try_acquire_le :
    (l : ConcurrencyLimiter) (p q : String)
    → active_count l q ≤ l.max_concurrent
    → active_count (try_acquire l p).0 q ≤ (try_acquire l p).0.max_concurrent
unfolding try_acquire
active-try_acquire_le l p q h =
    ground (arith, count_of-put p q (active_count l p + 1) l.active, eq_iff p q)

peak-try_acquire_le :
    (l : ConcurrencyLimiter) (p q : String)
    → peak_count l q ≤ l.max_concurrent
    → peak_count (try_acquire l p).0 q ≤ l.max_concurrent
unfolding try_acquire
peak-try_acquire_le l p q h =
    ground (arith, count_of-put p q (active_count l p + 1) l.peak, eq_iff p q)

attempt-IsExact : (top : ℕ) (s : Running) (p : String) → IsExact top s → IsExact top (attempted s p)
attempt-IsExact top s p h = record {
  ceiling = max-try_acquire s.limiter p ∙ h.ceiling;
  counted = λ q. ground (arith, active-try_acquire s.limiter p q, h.counted q);
  below = λ q. ground (
    arith,
    active-try_acquire s.limiter p q,
    try_acquire_iff s.limiter p,
    h.below q,
    h.ceiling,
    eq_iff p q,
  );
  peaked = λ q. peak-try_acquire s.limiter p q (h.peaked q);
  peak_below = λ q. omega (
    arith,
    peak-try_acquire_le s.limiter p q (omega (arith, h.peak_below q, h.ceiling)),
    h.ceiling,
  );
}

finish-IsExact :
    (top : ℕ) (s : Running) (p : String) (before after : List String)
    → s.holders ≡ before ++ p ∷ after
    → IsExact top s
    → IsExact top (record { limiter = release s.limiter p; holders = before ++ after })
finish-IsExact top s p before after e h = record {
  ceiling = unfold release in h.ceiling;
  counted = λ q. omega (
    arith,
    active-release s.limiter p q,
    h.counted q,
    ap (held q) e,
    held-remove q p before after,
  );
  below = λ q. omega (arith, active-release s.limiter p q, h.below q);
  peaked = λ q. omega (arith, active-release s.limiter p q, peak-release s.limiter p q, h.peaked q);
  peak_below = λ q. omega (arith, peak-release s.limiter p q, h.peak_below q);
}

Step-IsExact : (top : ℕ) {s t : Running} → Step s t → IsExact top s → IsExact top t
Step-IsExact top (attempt s p) h = attempt-IsExact top s p h
Step-IsExact top (finish s p before after e) h = finish-IsExact top s p before after e h

-- From any state in which the counts are the grants held, whatever attempts and releases follow and in
-- whatever order: each principal's active count is the number of its grants that are held, never
-- above the ceiling, and the recorded peak lies between the two.
pub Reach-IsExact : (top : ℕ) {s t : Running} → IsExact top s → Reach s t → IsExact top t
Reach-IsExact top h here = h
Reach-IsExact top h (next r st) = Step-IsExact top st (Reach-IsExact top h r)
