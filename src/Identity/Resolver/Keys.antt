-- ===== src/Identity/Resolver/Keys.antt =====
-- What a configured `IdentityResolver` of sentinelmcp/gateway/identity.py knows, and whom it resolves.
use sentinel_mcp.Prelude.{
  ◌≡◌, ◌≢◌, refl, ap, sym, ◌∙◌, ◌↔◌, ◌⊎◌, inl, inr, none, some, List, [], ◌∷◌, String, arith,
  eq_iff, str-cases, Option-cases,
}
use mathlib.Core.Option.{some-injective}
use sentinel_mcp.Prelude.Dict.{Dict, get, put, get-put}
use sentinel_mcp.Text.{before, after}
use sentinel_mcp.Identity.Resolver.{configured, key_of, configure_from, configure, resolve, space}

module _ (digest : String → String) (environ : Dict String) where
  -- One of the principals is `p`, and its key has the digest `h`.
  abbrev pub HasKey : String → String → List (String × String) → Type 0
  HasKey p h [] = ⊥
  HasKey p h ((q, env_var) ∷ rest) =
      ((p ≡ q) × (key : String) × (key_of environ env_var ≡ some key) × (digest key ≡ h))
      ⊎ HasKey p h rest

  -- One round of the loop: a key that was set, with a digest that was free.
  HasKey-put :
      (p h q env_var key : String) (digests : Dict String) (rest : List (String × String))
      → key_of environ env_var ≡ some key
      → get (digest key) digests ≡ none
      → ((get h (put (digest key) q digests) ≡ some p) ⊎ HasKey p h rest)
        ↔ ((get h digests ≡ some p) ⊎ HasKey p h ((q, env_var) ∷ rest))
  HasKey-put p h q env_var key digests rest set free = elim (str-cases (digest key) h) [
    | inl (test, same) ↦ (
      (λ c. elim c [
        | inl found ↦ inr (inl (stored same found, key, set, same))
        | inr later ↦ inr (inr later)
      ]),
      (λ c. elim c [
        | inl found ↦ cc (found, free, same)
        | inr (inl (named, k, set', d)) ↦ inl (rw (get-put, test) (ap some (sym named)))
        | inr (inr later) ↦ inr later
      ]),
    )
    | inr (test, differ) ↦ (
      (λ c. elim c [ inl found ↦ inl (rw (get-put, test) at found) | inr later ↦ inr (inr later) ]),
      (λ c. elim c [
        | inl found ↦ inl (rw (get-put, test) found)
        | inr (inl (named, k, set', d)) ↦ absurd (differ (cc (set, set', d)))
        | inr (inr later) ↦ inr later
      ]),
    )
  ]
    where
      stored : digest key ≡ h → get h (put (digest key) q digests) ≡ some p → p ≡ q
      stored same found = ground (arith, get-put (digest key) h q digests, eq_iff (digest key) h)

  configure_from_iff :
      (digests : Dict String) (pairs : List (String × String)) (result : Dict String) (p h : String)
      → configure_from digest environ digests pairs ≡ configured result
      → (get h result ≡ some p) ↔ ((get h digests ≡ some p) ⊎ HasKey p h pairs)
  unfolding configure_from
  configure_from_iff digests [] result p h e =
      let same : digests ≡ result = ground arith in
      (
        (λ found. inl (rw same found)),
        λ c. elim c [ inl found ↦ rw (← same) found | inr i ↦ elim i [ ] ],
      )
  configure_from_iff digests ((q, env_var) ∷ rest) result p h e =
      elim (Option-cases (key_of environ env_var)) [
        | inl unset ↦ cc (rw (unset, configure_from) at e)
        | inr (key, set) ↦ elim (Option-cases (get (digest key) digests)) [
          | inr (existing, taken) ↦ cc (rw (set, configure_from, taken, configure_from) at e)
          | inl free ↦
              let ih =
                configure_from_iff (put (digest key) q digests) rest result p h
                  (rw (set, configure_from, free, configure_from) at e) in
              let step = HasKey-put p h q env_var key digests rest set free in
              ((λ found. step.0 (ih.0 found)), λ c. ih.1 (step.1 c))
        ]
      ]

  -- A configured resolver maps a digest to a principal exactly when it is that of the principal's key.
  get-configure_iff :
      (pairs : List (String × String)) (result : Dict String) (p h : String)
      → configure digest environ pairs ≡ configured result
      → (get h result ≡ some p) ↔ HasKey p h pairs
  unfolding configure get
  get-configure_iff pairs result p h e =
      let step = configure_from_iff [] pairs result p h e in
      ((λ found. elim (step.0 found) [ inl in_none ↦ cc in_none | inr k ↦ k ]), λ k. step.1 (inr k))

  -- The one `Authorization` value has the scheme `Bearer` and a token that is not empty, and the
  -- token has the digest of the principal's key.
  pub record Presents (pairs : List (String × String)) (values : List String) (p : String)
      : Type 0 where
    pub value : String
    pub single : values ≡ value ∷ []
    pub scheme : before space value ≡ "Bearer"
    pub token : after space value ≢ ""
    pub keyed : HasKey p (digest (after space value)) pairs

  resolve_single :
      (result : Dict String) (value p : String)
      → resolve digest result (value ∷ []) ≡ some p
      → (before space value ≡ "Bearer")
        × (after space value ≢ "")
        × (get (digest (after space value)) result ≡ some p)
  unfolding resolve
  resolve_single result value p h =
      ground (arith, eq_iff (before space value) "Bearer", eq_iff (after space value) "")

  resolve-Presents :
      (pairs : List (String × String)) (result : Dict String) (values : List String) (p : String)
      → configure digest environ pairs ≡ configured result
      → resolve digest result values ≡ some p
      → Presents pairs values p
  unfolding resolve
  resolve-Presents pairs result [] p e h = cc h
  resolve-Presents pairs result (v ∷ w ∷ vs) p e h = cc h
  resolve-Presents pairs result (value ∷ []) p e h =
      let (scheme, token, found) = resolve_single result value p h in
      record {
        value = value;
        single = refl;
        scheme = scheme;
        token = token;
        keyed = (get-configure_iff pairs result p (digest (after space value)) e).0 found;
      }

  -- A configured resolver resolves the header values to a principal exactly when they present the
  -- principal's key. No header, two headers, another scheme, an empty token and a token that is no
  -- configured key resolve to nobody.
  pub resolve_iff :
      (pairs : List (String × String)) (result : Dict String) (values : List String) (p : String)
      → configure digest environ pairs ≡ configured result
      → (resolve digest result values ≡ some p) ↔ Presents pairs values p
  unfolding resolve
  resolve_iff pairs result values p e = (
    resolve-Presents pairs result values p e,
    λ c. rw c.single (
        ground (
          arith,
          c.scheme,
          c.token,
          eq_iff (before space c.value) "Bearer",
          eq_iff (after space c.value) "",
          (get-configure_iff pairs result p (digest (after space c.value)) e).1 c.keyed,
        )),
  )

  -- No two principals of a configured resolver share a key.
  pub HasKey-unique :
      (pairs : List (String × String)) (result : Dict String) (p q h : String)
      → configure digest environ pairs ≡ configured result
      → HasKey p h pairs
      → HasKey q h pairs
      → p ≡ q
  HasKey-unique pairs result p q h e i j =
      let found = (get-configure_iff pairs result p h e).1 i in
      let found' = (get-configure_iff pairs result q h e).1 j in
      some-injective p q (sym found ∙ found')
