-- ===== src/Identity/Resolver/StartUp.antt =====
-- When `IdentityResolver.__init__` of sentinelmcp/gateway/identity.py succeeds.
use sentinel_mcp.Prelude.{
  ◌≡◌, refl, ◌↔◌, inl, inr, none, some, List, [], ◌∷◌, String, arith, eq_iff, str-cases,
  Option-cases,
}
use sentinel_mcp.Prelude.Dict.{Dict, get, put, get-put, get-put_self}
use sentinel_mcp.Identity.Resolver.{Configured, configured, key_of, configure_from, configure}
use sentinel_mcp.Identity.Resolver.Keys

module _ (digest : String → String) (environ : Dict String) where
  abbrev HasKey : String → String → List (String × String) → Type 0
  HasKey = Keys.HasKey digest environ

  -- Every key is set, and none has the digest of a later one.
  abbrev pub IsUsable : List (String × String) → Type 0
  IsUsable [] = Unit
  IsUsable ((q, env_var) ∷ rest) =
      (key : String) × (key_of environ env_var ≡ some key)
      × ((p : String) → ¬ HasKey p (digest key) rest)
      × IsUsable rest

  abbrev Succeeds : Configured → Type 0
  Succeeds c = (result : Dict String) × (c ≡ configured result)

  -- No key of the pairs is taken.
  abbrev IsFree : Dict String → List (String × String) → Type 0
  IsFree digests pairs = (p h : String) → HasKey p h pairs → get h digests ≡ none

  configure_from-Succeeds :
      (digests : Dict String) (pairs : List (String × String))
      → IsUsable pairs
      → IsFree digests pairs
      → Succeeds (configure_from digest environ digests pairs)
  unfolding configure_from
  configure_from-Succeeds digests [] u free = (digests, refl)
  configure_from-Succeeds digests ((q, env_var) ∷ rest) (key, set, apart, u) free =
      let (result, e) = configure_from-Succeeds (put (digest key) q digests) rest u (λ p h k.
        rw get-put (elim (str-cases (digest key) h) [
          | inl (test, same) ↦ absurd (apart p (rw same k))
          | inr (test, differ) ↦ rw test (free p h (inr k))
        ])) in
      (
        result,
        rw (set, configure_from, free q (digest key) (inl (refl, key, set, refl)), configure_from)
            e,
      )

  configure_from-IsUsable :
      (digests : Dict String) (pairs : List (String × String)) (result : Dict String)
      → configure_from digest environ digests pairs ≡ configured result
      → IsUsable pairs × IsFree digests pairs
  unfolding configure_from
  configure_from-IsUsable digests [] result e = (tt, λ p h k. elim k [ ])
  configure_from-IsUsable digests ((q, env_var) ∷ rest) result e =
      elim (Option-cases (key_of environ env_var)) [
        | inl unset ↦ cc (rw (unset, configure_from) at e)
        | inr (key, set) ↦ elim (Option-cases (get (digest key) digests)) [
          | inr (existing, taken) ↦ cc (rw (set, configure_from, taken, configure_from) at e)
          | inl free ↦
              let (usable, unused) =
                configure_from-IsUsable (put (digest key) q digests) rest result
                  (rw (set, configure_from, free, configure_from) at e) in
              (
                (
                  key,
                  set,
                  (λ p k. cc (unused p (digest key) k, get-put_self (digest key) q digests)),
                  usable,
                ),
                λ p h c. elim c [
                  | inl (named, k, set', d) ↦ cc (set, set', d, free)
                  | inr later ↦ ground (
                    arith,
                    unused p h later,
                    get-put (digest key) h q digests,
                    eq_iff (digest key) h,
                    free,
                  )
                ],
              )
        ]
      ]

  -- Start-up succeeds exactly when every principal's key is set and not empty and no two of them have
  -- the same digest; otherwise it is refused.
  pub configure_iff :
      (pairs : List (String × String))
      → ((result : Dict String) × (configure digest environ pairs ≡ configured result))
        ↔ IsUsable pairs
  unfolding configure get
  configure_iff pairs = (
    (λ (result, e). (configure_from-IsUsable [] pairs result e).0),
    λ u. configure_from-Succeeds [] pairs u (λ p h k. refl),
  )
