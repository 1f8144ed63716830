-- ===== src/Audit/Names/Laws.antt =====
-- About `_is_sensitive_name` of sentinelmcp/telemetry/audit.py: names and the spellings in them.
use Prim.Native.String.{String}
use mathlib.Core.List.{append_assoc}
use sentinel_mcp.Prelude.{
  ℕ, ◌+◌, ◌≤◌, ◌≡◌, refl, ap, sym, ◌∙◌, ◌↔◌, ◌⊎◌, inl, inr, true, List, [], ◌∷◌, ◌++◌, any, IsIn,
  arith, Bool-cases,
}
use sentinel_mcp.Audit.Names.{
  codes, starts, contains, strip, lower_code, lower, normalize_name, is_sensitive_name,
  sensitive_name_fragments,
}

starts_split : (f t : List ℕ) → starts f t ≡ true → (post : List ℕ) × (t ≡ f ++ post)
unfolding starts
starts_split [] t h = (t, refl)
starts_split (c ∷ f) [] h = cc
starts_split (c ∷ f) (d ∷ t) h =
    let same : c ≡ d = ground arith in
    let (post, e) = starts_split f t (ground arith) in (post, cc (same, e))

starts-append : (f post : List ℕ) → starts f (f ++ post) ≡ true
unfolding starts
starts-append [] post = refl
starts-append (c ∷ f) post = ground (arith, starts-append f post)

-- An occurrence of one text in another.
abbrev pub IsInfix : List ℕ → List ℕ → Type 0
IsInfix f t = (pre : List ℕ) × (post : List ℕ) × (t ≡ pre ++ (f ++ post))

contains_split : (f t : List ℕ) → contains f t ≡ true → IsInfix f t
unfolding contains
contains_split f [] h = let (post, e) = starts_split f [] h in ([], post, e)
contains_split f (c ∷ t) h = elim (Bool-cases (starts f (c ∷ t))) [
  | inl now ↦ let (post, e) = starts_split f (c ∷ t) now in ([], post, e)
  | inr later ↦
      let (pre, post, e) = contains_split f t (rw later at h) in
      (c ∷ pre, post, ap (λ (u : List ℕ). c ∷ u) e)
]

contains-append : (f pre post : List ℕ) → contains f (pre ++ (f ++ post)) ≡ true
unfolding contains
contains-append f (c ∷ pre) post = ground (arith, contains-append f pre post)
contains-append [] [] [] = refl
contains-append [] [] (d ∷ post) = refl
contains-append (c ∷ f) [] post = ground (arith, starts-append (c ∷ f) post)

pub contains_iff : (f t : List ℕ) → (contains f t ≡ true) ↔ IsInfix f t
contains_iff f t = (contains_split f t, λ (pre, post, e). rw e (contains-append f pre post))

-- What `_` and `-`, a small letter and a capital letter are, by their code points.
abbrev pub IsSeparator : ℕ → Type 0
IsSeparator c = (c ≡ b'_') ⊎ (c ≡ b'-')

abbrev pub IsSmall : ℕ → Type 0
IsSmall c = (b'a' ≤ c) × (c ≤ b'z')

abbrev pub IsCapital : ℕ → Type 0
IsCapital c = (b'A' ≤ c) × (c ≤ b'Z')

-- A spelling of a fragment: the fragment's letters in their order, each small or capital, with
-- separators put in and left out anywhere.
pub data Spells : List ℕ → List ℕ → Type 0 where
  whole : Spells [] []
  put_in : (c : ℕ) (s f : List ℕ) → IsSeparator c → Spells s f → Spells (c ∷ s) f
  left_out : (c : ℕ) (s f : List ℕ) → IsSeparator c → Spells s f → Spells s (c ∷ f)
  small : (c : ℕ) (s f : List ℕ) → IsSmall c → Spells s f → Spells (c ∷ s) (c ∷ f)
  capital : (c : ℕ) (s f : List ℕ) → IsCapital c → Spells s f → Spells (c ∷ s) ((c + 32) ∷ f)

strip-append : (s t : List ℕ) → strip (s ++ t) ≡ strip s ++ strip t
unfolding strip
strip-append [] t = refl
strip-append (c ∷ s) t = ground (arith, strip-append s t)

module _ (lower_other : ℕ → List ℕ) where
  lower-append :
      (s t : List ℕ) → lower lower_other (s ++ t) ≡ lower lower_other s ++ lower lower_other t
  unfolding lower
  lower-append [] t = refl
  lower-append (c ∷ s) t =
      rw (lower-append s t)
        (sym (append_assoc (lower_code lower_other c) (lower lower_other s) (lower lower_other t)))

  -- The normal form of code points.
  abbrev pub normalize : List ℕ → List ℕ
  normalize t = strip (lower lower_other t)

  normalize-append : (s t : List ℕ) → normalize (s ++ t) ≡ normalize s ++ normalize t
  normalize-append s t =
      rw (lower-append s t) (strip-append (lower lower_other s) (lower lower_other t))

  normalize-separator : (c : ℕ) (t : List ℕ) → IsSeparator c → normalize (c ∷ t) ≡ normalize t
  unfolding lower lower_code strip
  normalize-separator c t (inl e) = rw e refl
  normalize-separator c t (inr e) = rw e refl

  normalize-small : (c : ℕ) (t : List ℕ) → IsSmall c → normalize (c ∷ t) ≡ c ∷ normalize t
  unfolding lower lower_code strip
  normalize-small c t (low, high) = ground arith

  normalize-capital :
      (c : ℕ) (t : List ℕ) → IsCapital c → normalize (c ∷ t) ≡ (c + 32) ∷ normalize t
  unfolding lower lower_code strip
  normalize-capital c t (low, high) = ground arith

  capital-IsSmall : (c : ℕ) → IsCapital c → IsSmall (c + 32)
  capital-IsSmall c (low, high) = (omega arith, omega arith)

  normalize-Spells : {s f : List ℕ} → Spells s f → normalize s ≡ normalize f
  normalize-Spells whole = refl
  normalize-Spells (put_in c s f sep spelled) =
      normalize-separator c s sep ∙ normalize-Spells spelled
  normalize-Spells (left_out c s f sep spelled) =
      normalize-Spells spelled ∙ sym (normalize-separator c f sep)
  normalize-Spells (small c s f letter spelled) =
      rw (normalize-small c s letter, normalize-small c f letter, normalize-Spells spelled) refl
  normalize-Spells (capital c s f letter spelled) =
      rw
        (
          normalize-capital c s letter,
          normalize-small (c + 32) f (capital-IsSmall c letter),
          normalize-Spells spelled,
        )
        refl

  any_fragment :
      (name : String) (fragments : List String) (f : String)
      → IsIn f fragments
      → IsInfix (normalize_name lower_other f) (normalize_name lower_other name)
      → any
          (λ g. contains (normalize_name lower_other g) (normalize_name lower_other name))
          fragments
        ≡ true
  any_fragment name [] f listed k = elim listed [ ]
  any_fragment name (g ∷ fragments) f (inl e) k = rw (← e, (contains_iff _ _).1 k) refl
  any_fragment name (g ∷ fragments) f (inr i) k = ground (arith, any_fragment name fragments f i k)

  -- A name in which a spelling of a fragment stands, each letter small or capital, with any `_` and `-`
  -- put in or left out, and with any text before and after it, is sensitive.
  pub is_sensitive_name_of_spelling :
      (name fragment : String) (pre spelling post : List ℕ)
      → IsIn fragment sensitive_name_fragments
      → codes name ≡ pre ++ (spelling ++ post)
      → Spells spelling (codes fragment)
      → is_sensitive_name lower_other name ≡ true
  unfolding is_sensitive_name
  is_sensitive_name_of_spelling name fragment pre spelling post listed e spelled =
      any_fragment name sensitive_name_fragments fragment listed (
        normalize pre,
        normalize post,
        unfold normalize_name in
            (ap normalize e
              ∙ normalize-append pre (spelling ++ post)
              ∙ ap (λ (u : List ℕ). normalize pre ++ u) (normalize-append spelling post)
              ∙ ap (λ (u : List ℕ). normalize pre ++ (u ++ normalize post))
                  (normalize-Spells spelled)),
      )
