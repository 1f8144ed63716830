-- ===== src/Policy/Engine/Arguments.antt =====
-- About `evaluate_argument_policy` of sentinelmcp/policy/engine.py, against `Satisfies` of Spec.
use sentinel_mcp.Prelude.{
  ◌≡◌, refl, ◌↔◌, Bool, true, false, Option, none, some, List, [], ◌∷◌, ◌++◌, map, String, arith,
  elem, elem-append, IsIn, All, elem_iff, if◌then◌else◌, Option-cases, inl, inr,
}
use mathlib.Core.Path.{subst}
use mathlib.Core.Option.{some-injective}
use sentinel_mcp.Prelude.Dict.{Dict, get, keys}
use sentinel_mcp.Json.{Json, null, bool, int, float, str, arr, obj, Fields, fields}
use sentinel_mcp.Text.{before, split}
use sentinel_mcp.Policy.Models.{ArgumentConstraint, ToolPolicy}
use sentinel_mcp.Policy.Engine.{
  Violation, or_else, dot, check_required, check_forbidden, check_known, check_value, check_paths,
  member, walk, ◌>>=◌, resolve_path, known_top_level_fields, evaluate_argument_policy,
}
use sentinel_mcp.Policy.Engine.Spec.{Leads, arrived, into, Meets, MeetsAt, IsKnown, Satisfies}
use sentinel_mcp.Policy.Engine.Constraint.{check_constraint_iff}

or_else_iff {κ μ} :
    {P : Type κ} {Q : Type μ} (first later : Option Violation)
    → (first ≡ none) ↔ P
    → (later ≡ none) ↔ Q
    → (or_else first later ≡ none) ↔ (P × Q)
or_else_iff none later p q = ((λ e. (p.0 refl, q.0 e)), λ (h, k). q.1 k)
or_else_iff (some reason) later p q = ((λ e. cc), λ (h, k). cc (p.1 h))

check_required_iff :
    (names present : List String)
    → (check_required names present ≡ none) ↔ All (λ name. IsIn name present) names
unfolding check_required
check_required_iff [] present = ground arith
check_required_iff (name ∷ rest) present =
    ground (arith, elem_iff name present, check_required_iff rest present)

check_forbidden_iff :
    (names present : List String)
    → (check_forbidden names present ≡ none) ↔ All (λ name. ¬ IsIn name present) names
unfolding check_forbidden
check_forbidden_iff [] present = ground arith
check_forbidden_iff (name ∷ rest) present =
    ground (arith, elem_iff name present, check_forbidden_iff rest present)

elem-IsKnown :
    (p : ToolPolicy) (name : String)
    → (elem name (known_top_level_fields p) ≡ true) ↔ IsKnown p name
unfolding known_top_level_fields
elem-IsKnown p name = ground (
  arith,
  elem-append name p.required (p.forbidden ++ map (before dot) (keys p.arguments)),
  elem-append name p.forbidden (map (before dot) (keys p.arguments)),
  elem_iff name p.required,
  elem_iff name p.forbidden,
  elem_iff name (map (before dot) (keys p.arguments)),
)

check_known_iff :
    (p : ToolPolicy) (names : List String)
    → (check_known (known_top_level_fields p) names ≡ none) ↔ All (IsKnown p) names
unfolding check_known
check_known_iff p [] = ground arith
check_known_iff p (name ∷ rest) = ground (arith, elem-IsKnown p name, check_known_iff p rest)

when_iff {κ} :
    {P : Type κ} (b : Bool) (later : Option Violation)
    → (later ≡ none) ↔ P
    → ((if b then later else none) ≡ none) ↔ (b ≡ true → P)
when_iff true later p = ((λ e _. p.0 e), λ k. p.1 (k refl))
when_iff false later p = ((λ _ e. cc), λ _. refl)

into-Leads :
    (name : String) (rest : List String) (from v : Json)
    → ((next : Json) → walk next rest ≡ some v → Leads next rest v)
    → (member name from >>= λ next. walk next rest) ≡ some v
    → Leads from (name ∷ rest) v
into-Leads name rest (obj fs) v onwards e = elim (Option-cases (get name (fields fs))) [
  | inl missing ↦ cc (rw missing at e)
  | inr (next, found) ↦ into name rest fs next v found (onwards next (rw found at e))
]
into-Leads name rest null v onwards e = cc
into-Leads name rest (bool b) v onwards e = cc
into-Leads name rest (int n) v onwards e = cc
into-Leads name rest (float x) v onwards e = cc
into-Leads name rest (str t) v onwards e = cc
into-Leads name rest (arr vs) v onwards e = cc

leads : (from : Json) (path : List String) (v : Json) → walk from path ≡ some v → Leads from path v
unfolding walk
leads from [] v e = subst (Leads from []) (some-injective from v e) (arrived from)
leads from (name ∷ rest) v e = into-Leads name rest from v (λ next. leads next rest v) e

walked : {from v : Json} {path : List String} → Leads from path v → walk from path ≡ some v
unfolding walk
walked (arrived goal) = refl
walked (into name rest fs next goal found onwards) = rw found (walked onwards)

walk_iff :
    (from : Json) (path : List String) (v : Json) → (walk from path ≡ some v) ↔ Leads from path v
walk_iff from path v = (leads from path v, λ there. walked there)

module _ (fullmatch : String → String → Bool) where
  check_value_iff :
      (path : String) (c : ArgumentConstraint) (o : Option Json)
      → (check_value fullmatch path c o ≡ none) ↔ ((v : Json) → o ≡ some v → Meets fullmatch c v)
  unfolding check_value
  check_value_iff path c none = ((λ _ v e. cc), λ _. refl)
  check_value_iff path c (some v) = (
    (λ e w same.
        subst (Meets fullmatch c) (some-injective v w same)
          ((check_constraint_iff fullmatch path v c).0 e)),
    λ k. (check_constraint_iff fullmatch path v c).1 (k v refl),
  )

  -- A constraint's path, where it leads anywhere.
  check_path_iff :
      (arguments : Fields) (path : String) (c : ArgumentConstraint)
      → (check_value fullmatch path c (resolve_path arguments path) ≡ none)
        ↔ MeetsAt fullmatch arguments (path, c)
  unfolding resolve_path
  check_path_iff arguments path c =
      let by_value = check_value_iff path c (resolve_path arguments path) in
      let segments = split dot path in
      (
        (λ e v there. by_value.0 e v ((walk_iff (obj arguments) segments v).1 there)),
        λ k. by_value.1 (λ v there. k v ((walk_iff (obj arguments) segments v).0 there)),
      )

  check_paths_iff :
      (arguments : Fields) (rules : Dict ArgumentConstraint)
      → (check_paths fullmatch arguments rules ≡ none) ↔ All (MeetsAt fullmatch arguments) rules
  unfolding check_paths
  check_paths_iff arguments [] = ground arith
  check_paths_iff arguments ((path, c) ∷ rest) =
      or_else_iff _ _ (check_path_iff arguments path c) (check_paths_iff arguments rest)

  -- The argument policy passes exactly when every required name is present, no forbidden one is, no
  -- unknown one is where unknown names are denied, and each constraint holds of the value that its path
  -- leads to, where it leads to one.
  pub evaluate_argument_policy_iff :
      (p : ToolPolicy) (arguments : Fields)
      → (evaluate_argument_policy fullmatch p arguments ≡ none) ↔ Satisfies fullmatch p arguments
  unfolding evaluate_argument_policy
  evaluate_argument_policy_iff p arguments =
      let chain = or_else_iff _ _ (check_required_iff p.required (keys (fields arguments))) (
        or_else_iff _ _ (check_forbidden_iff p.forbidden (keys (fields arguments))) (
          or_else_iff _ _
            (when_iff p.deny_unknown_arguments _ (check_known_iff p (keys (fields arguments))))
            (check_paths_iff arguments p.arguments))) in
      (
        (λ e.
            let m = chain.0 e in
            record {
              required = m.0;
              forbidden = (m.1.0);
              known = (m.1.1.0);
              constrained = (m.1.1.1);
            }),
        λ m. chain.1 (m.required, (m.forbidden, (m.known, m.constrained))),
      )
