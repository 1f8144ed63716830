-- ===== src/Bridge/Flight/Inquiry/Proceeding.antt =====
-- The steps of one `tools/list` request of Inquiry, by what they find and what they change
-- (`handle_list_tools` and `UpstreamToolCache.get` of sentinelmcp/gateway/bridge.py).
use sentinel_mcp.Prelude.{
  ℕ, ◌+◌, ◌≤◌, ◌<◌, ◌≡◌, refl, Bool, true, false, Option, none, some, List, if◌then◌else◌, arith,
}
use sentinel_mcp.Exec.{Exn, Outcome, ok, raised}
use sentinel_mcp.Policy.Models.{PolicyConfig}
use sentinel_mcp.Bridge.State.{Tool}
use sentinel_mcp.Bridge.Flight.{Shared}
use sentinel_mcp.Bridge.Flight.Guards.{Guarding, listing_fails}
use sentinel_mcp.Bridge.Flight.Inquiry.{
  Inquiry, Stage, queued, querying, shown, Lister, showing, glance, queue, received, proceed,
}

-- One for a request that has the lock.
abbrev pub keeps_lock : Stage → ℕ
keeps_lock querying = 1
keeps_lock _ = 0

-- One for a request whose wait for the upstream's list would end with an exception.
abbrev pub in_vain : Lister → ℕ
in_vain l = listing_fails l.inquiry.listed

-- The same, as long as the request may still fetch.
abbrev pub may_err : Inquiry → Stage → ℕ
may_err i (shown result) = 0
may_err i _ = listing_fails i.listed

-- The steps that a request may have before it, at most.
abbrev pub distance : Stage → ℕ
distance queued = 2
distance querying = 1
distance (shown result) = 0

-- One for a request that has ended.
abbrev pub answered_of : Stage → ℕ
answered_of (shown result) = 1
answered_of _ = 0

-- Only the cache and its lock change.
pub record Leaves (sh sh' : Shared) : Type 0 where
  pub same_rates : sh'.gateway.rate_limiter ≡ sh.gateway.rate_limiter
  pub same_slots : sh'.gateway.concurrency_limiter ≡ sh.gateway.concurrency_limiter
  pub same_log : sh'.gateway.log ≡ sh.gateway.log
  pub same_calls : sh'.gateway.forwarded ≡ sh.gateway.forwarded

module _ (policy : PolicyConfig) (i : Inquiry) where
  pub data Proceeds : Stage → Shared → Stage → Shared → Type 0 where
    give_up : (sh : Shared) (e : Exn) → Proceeds queued sh (shown (raised e)) sh
    fetch :
        (sh : Shared)
        → sh.locked ≡ false
        → sh.gateway.tools ≡ none
        → Proceeds queued sh querying (record sh { locked = true })
    cached :
        (sh : Shared) (tools : List Tool)
        → sh.gateway.tools ≡ some tools
        → Proceeds queued sh (showing policy i tools) sh
    fetch_failed :
        (sh : Shared) (e : Exn)
        → i.listed ≡ raised e
        → Proceeds querying sh (shown (raised e)) (record {
          gateway = record sh.gateway { fetches = sh.gateway.fetches + 1 };
          locked = false;
        })
    fetch_done :
        (sh : Shared) (tools : List Tool)
        → i.listed ≡ ok tools
        → Proceeds querying sh (showing policy i tools) (record {
          gateway = record sh.gateway { fetches = sh.gateway.fetches + 1; tools = some tools };
          locked = false;
        })

  abbrev ProceedsOf : Stage → Shared → Option (Stage × Shared) → Type 0
  ProceedsOf s sh none = Unit
  ProceedsOf s sh (some (s', sh')) = Proceeds s sh s' sh'

  glance-Proceeds :
      (tools : Option (List Tool)) (sh : Shared)
      → sh.locked ≡ false
      → sh.gateway.tools ≡ tools
      → Proceeds queued sh (glance policy i tools sh).0 (glance policy i tools sh).1
  unfolding glance
  glance-Proceeds (some tools) sh free had = cached sh tools had
  glance-Proceeds none sh free had = fetch sh free had

  lock-Proceeds :
      (b : Bool) (sh : Shared)
      → sh.locked ≡ b
      → ProceedsOf queued sh (if b then none else some (glance policy i sh.gateway.tools sh))
  lock-Proceeds true sh busy = tt
  lock-Proceeds false sh free = glance-Proceeds sh.gateway.tools sh free refl

  queue-Proceeds :
      (o : Outcome (Unit {0})) (sh : Shared) → ProceedsOf queued sh (queue policy i o sh)
  unfolding queue
  queue-Proceeds (raised e) sh = give_up sh e
  queue-Proceeds (ok _) sh = lock-Proceeds sh.locked sh refl

  received-Proceeds :
      (o : Outcome (List Tool)) (sh : Shared)
      → i.listed ≡ o
      → Proceeds querying sh (received policy i o sh).0 (received policy i o sh).1
  unfolding received
  received-Proceeds (raised e) sh failed = fetch_failed sh e failed
  received-Proceeds (ok tools) sh had = fetch_done sh tools had

  proceed-ProceedsOf : (s : Stage) (sh : Shared) → ProceedsOf s sh (proceed policy i s sh)
  unfolding proceed
  proceed-ProceedsOf queued sh = queue-Proceeds i.lock_wait sh
  proceed-ProceedsOf querying sh = received-Proceeds i.listed sh refl
  proceed-ProceedsOf (shown result) sh = tt

  pub proceed-Proceeds :
      (s s' : Stage) (sh sh' : Shared)
      → proceed policy i s sh ≡ some (s', sh')
      → Proceeds s sh s' sh'
  proceed-Proceeds s s' sh sh' e = rw e at (proceed-ProceedsOf s sh)

  same-Leaves :
      (sh : Shared) (b : Bool) (n : ℕ) (tools : Option (List Tool))
      → Leaves sh
          (record { gateway = record sh.gateway { fetches = n; tools = tools }; locked = b })
  same-Leaves sh b n tools = record {
    same_rates = refl;
    same_slots = refl;
    same_log = refl;
    same_calls = refl;
  }

  pub Proceeds-Leaves :
      {s : Stage} {sh : Shared} {s' : Stage} {sh' : Shared} → Proceeds s sh s' sh' → Leaves sh sh'
  Proceeds-Leaves (give_up sh e) = same-Leaves sh sh.locked sh.gateway.fetches sh.gateway.tools
  Proceeds-Leaves (fetch sh free unset) = same-Leaves sh true sh.gateway.fetches sh.gateway.tools
  Proceeds-Leaves (cached sh tools had) =
      same-Leaves sh sh.locked sh.gateway.fetches sh.gateway.tools
  Proceeds-Leaves (fetch_failed sh e failed) =
      same-Leaves sh false (sh.gateway.fetches + 1) sh.gateway.tools
  Proceeds-Leaves (fetch_done sh tools had) =
      same-Leaves sh false (sh.gateway.fetches + 1) (some tools)

  pub Proceeds-Guarding :
      {s : Stage} {sh : Shared} {s' : Stage} {sh' : Shared}
      → Proceeds s sh s' sh'
      → Guarding (keeps_lock s) (may_err i s) sh (keeps_lock s') (may_err i s') sh'
  Proceeds-Guarding (give_up sh e) = record {
    lock = λ others h. h;
    empty = λ low h. h;
    spent = λ h. omega arith;
  }
  Proceeds-Guarding (fetch sh free unset) = record {
    lock = λ others h. omega (arith, rw free at h);
    empty = λ low h. rw unset (omega arith);
    spent = λ h. omega arith;
  }
  Proceeds-Guarding (cached sh tools had) = record {
    lock = λ others h. h;
    empty = λ low h. h;
    spent = λ h. omega arith;
  }
  Proceeds-Guarding (fetch_failed sh e failed) = record {
    lock = λ others h. ground (arith, h);
    empty = λ low h. omega arith;
    spent = λ h. rw failed (omega arith);
  }
  Proceeds-Guarding (fetch_done sh tools had) = record {
    lock = λ others h. ground (arith, h);
    empty = λ low h. omega arith;
    spent = λ h. omega (arith, h);
  }

  pub Proceeds-distance :
      {s : Stage} {sh : Shared} {s' : Stage} {sh' : Shared}
      → Proceeds s sh s' sh'
      → distance s' < distance s
  Proceeds-distance (give_up sh e) = omega arith
  Proceeds-distance (fetch sh free unset) = omega arith
  Proceeds-distance (cached sh tools had) = omega arith
  Proceeds-distance (fetch_failed sh e failed) = omega arith
  Proceeds-distance (fetch_done sh tools had) = omega arith

  -- A step of a request that has not ended, where no lock is in its way.
  abbrev pub Goes : Stage → Shared → Type 0
  Goes s sh = (s' : Stage) × (sh' : Shared) × (proceed policy i s sh ≡ some (s', sh'))

  free-queue :
      (o : Outcome (Unit {0})) (sh : Shared)
      → sh.locked ≡ false
      → (s' : Stage) × (sh' : Shared) × (queue policy i o sh ≡ some (s', sh'))
  unfolding queue
  free-queue (raised e) sh free = (_, _, refl)
  free-queue (ok u) sh free =
      let found = glance policy i sh.gateway.tools sh in (found.0, found.1, rw free refl)

  pub free-Goes : (s : Stage) (sh : Shared) → sh.locked ≡ false → answered_of s ≡ 0 → Goes s sh
  unfolding proceed
  free-Goes queued sh free going_on = free-queue i.lock_wait sh free
  free-Goes querying sh free going_on = (_, _, refl)
  free-Goes (shown result) sh free going_on = absurd (omega (arith, going_on))

  pub lock-Goes : (s : Stage) (sh : Shared) → 1 ≤ keeps_lock s → Goes s sh
  unfolding proceed
  lock-Goes querying sh h = (_, _, refl)
  lock-Goes queued sh h = absurd (omega (arith, h))
  lock-Goes (shown result) sh h = absurd (omega (arith, h))
