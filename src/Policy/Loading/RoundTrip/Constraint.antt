-- ===== src/Policy/Loading/RoundTrip/Constraint.antt =====
-- A constraint of the policy written out and read again by `ArgumentConstraint`, of
-- sentinelmcp/policy/models.py.
use sentinel_mcp.Prelude.{
  ◌≡◌, refl, ◌∙◌, arith, Bool, true, false, not, ◌&&◌, ◌||◌, Option, none, some, List, [], ◌∷◌,
  String, str_eq, elem, is_some, if◌then◌else◌, &&_iff,
}
use sentinel_mcp.Prelude.Int.{ℤ}
use sentinel_mcp.Prelude.Dict.{Dict, get}
use sentinel_mcp.Float.{Float}
use sentinel_mcp.Json.{Json, null, bool, int, float, str, arr, obj, Fields, end, field, of_items}
use sentinel_mcp.Policy.Models.{ArgumentConstraint}
use sentinel_mcp.Policy.Loading.{
  is_compiled, Conversions, given, only, or_default, nullable, list_of, to_list, fields_set, in_key,
  operator_keys, seconds, to_pattern, constraint_from, to_constraint,
}

-- The conversions keep the values that have the type already.
pub record IsFaithful (c : Conversions) : Type 0 where
  pub text : (s : String) → c.to_str (str s) ≡ some s
  pub truth : (b : Bool) → c.to_bool (bool b) ≡ some b
  pub whole : (n : ℤ) → c.to_int (int n) ≡ some n
  pub real : (x : Float) → c.to_float (float x) ≡ some x

-- The entries that are there.
abbrev pub entries : Dict (Option Json) → Fields
entries [] = end
entries ((k, none) ∷ rest) = entries rest
entries ((k, some v) ∷ rest) = field k v (entries rest)

abbrev or_later : Option Json → Option Json → Option Json
or_later none later = later
or_later (some v) later = some v

abbrev find : String → Dict (Option Json) → Option Json
find k [] = none
find k ((j, o) ∷ rest) = if str_eq j k then or_later o (find k rest) else find k rest

or_later-none : (o : Option Json) → or_later o none ≡ o
or_later-none none = refl
or_later-none (some v) = refl

given-entries : (k : String) (d : Dict (Option Json)) → given k (entries d) ≡ find k d
unfolding get
given-entries k [] = refl
given-entries k ((j, none) ∷ rest) = ground (arith, given-entries k rest)
given-entries k ((j, some v) ∷ rest) = ground (arith, given-entries k rest)

abbrev all_named : List String → Dict (Option Json) → Bool
all_named names [] = true
all_named names ((k, o) ∷ rest) = (elem k names || not (is_some o)) && all_named names rest

only-entries :
    (names : List String) (d : Dict (Option Json))
    → all_named names d ≡ true
    → only names (entries d) ≡ true
only-entries names [] h = refl
only-entries names ((k, none) ∷ rest) h =
    only-entries names rest ((&&_iff (elem k names || true) (all_named names rest)).0 h).1
only-entries names ((k, some v) ∷ rest) h =
    let (known, others) = (&&_iff (elem k names || false) (all_named names rest)).0 h in
    ground (arith, known, only-entries names rest others)

abbrev write_nullable : {A : Type 0} → (A → Json) → Option A → Json
write_nullable write none = null
write_nullable write (some a) = write a

abbrev pub when : Bool → Json → Option Json
when b v = if b then some v else none

is_some-when : (b : Bool) (v : Json) → is_some (when b v) ≡ b
is_some-when true v = refl
is_some-when false v = refl

module _ (k : ArgumentConstraint) where
  abbrev is_set : String → Bool
  is_set name = elem name k.model_fields_set

  abbrev operators : Dict (Option Json)
  operators =
      ("equals", when (is_set "equals") k.equals)
      ∷ ("in", when (is_set "in_") (write_nullable (λ vs. arr (of_items vs)) k.in_))
      ∷ ("min", when (is_set "min") (write_nullable float k.min))
      ∷ ("max", when (is_set "max") (write_nullable float k.max))
      ∷ ("min_length", when (is_set "min_length") (write_nullable int k.min_length))
      ∷ ("max_length", when (is_set "max_length") (write_nullable int k.max_length))
      ∷ ("min_items", when (is_set "min_items") (write_nullable int k.min_items))
      ∷ ("max_items", when (is_set "max_items") (write_nullable int k.max_items))
      ∷ ("pattern", when (is_set "pattern") (write_nullable str k.pattern))
      ∷ []

  -- The operators that are set, each under its key.
  pub write_constraint : Json
  write_constraint = obj (entries operators)

abbrev present : List String → List (String × String) → List String
present set [] = []
present set ((name, key) ∷ rest) =
    let later = present set rest in if elem name set then name ∷ later else later

abbrev Compiles : Conversions → Option String → Type 0
Compiles c none = Unit
Compiles c (some p) = is_compiled (c.compile p) ≡ true

-- What holds of every constraint that the class makes: its set of given fields is in the class's order,
-- a field that is not given has its default, and the pattern compiles.
pub record IsWritable (c : Conversions) (k : ArgumentConstraint) : Type 0 where
  pub in_order : present k.model_fields_set (operator_keys "in_") ≡ k.model_fields_set
  pub no_equals : is_set k "equals" ≡ false → k.equals ≡ null
  pub no_in : is_set k "in_" ≡ false → k.in_ ≡ none
  pub no_min : is_set k "min" ≡ false → k.min ≡ none
  pub no_max : is_set k "max" ≡ false → k.max ≡ none
  pub no_min_length : is_set k "min_length" ≡ false → k.min_length ≡ none
  pub no_max_length : is_set k "max_length" ≡ false → k.max_length ≡ none
  pub no_min_items : is_set k "min_items" ≡ false → k.min_items ≡ none
  pub no_max_items : is_set k "max_items" ≡ false → k.max_items ≡ none
  pub no_pattern : is_set k "pattern" ≡ false → k.pattern ≡ none
  pub compiles : Compiles c k.pattern

field_back :
    {A : Type 0} (b : Bool) (d a : A) (convert : Json → Option A) (v : Json) (o : Option Json)
    → o ≡ when b v
    → convert v ≡ some a
    → (b ≡ false → a ≡ d)
    → or_default d convert o ≡ some a
field_back true d a convert v o e back unset = rw e back
field_back false d a convert v o e back unset = rw (e, unset refl) refl

list_any-back : (vs : List Json) → list_of some (of_items vs) ≡ some vs
list_any-back [] = refl
list_any-back (v ∷ vs) = rw (list_any-back vs) refl

module _ (c : Conversions) (f : IsFaithful c) where
  in-back :
      (o : Option (List Json))
      → nullable (to_list some) (write_nullable (λ vs. arr (of_items vs)) o) ≡ some o
  in-back none = refl
  in-back (some vs) = rw (list_any-back vs) refl

  float-back : (o : Option Float) → nullable c.to_float (write_nullable float o) ≡ some o
  float-back none = refl
  float-back (some x) = rw (f.real x) refl

  int-back : (o : Option ℤ) → nullable c.to_int (write_nullable int o) ≡ some o
  int-back none = refl
  int-back (some n) = rw (f.whole n) refl

  pattern-back : (o : Option String) → Compiles c o → to_pattern c (write_nullable str o) ≡ some o
  pattern-back none h = refl
  pattern-back (some p) h = rw (f.text p) (rw h refl)

  module _ (k : ArgumentConstraint) (h : IsWritable c k) where
    abbrev doc : Fields
    doc = entries (operators k)

    -- The entry under an operator's key is what was written there.
    at_key :
        (key : String) (o : Option Json)
        → find key (operators k) ≡ or_later o none
        → given key doc ≡ o
    at_key key o e = given-entries key (operators k) ∙ e ∙ or_later-none o

    in_entry :
        (b : Bool) (v : Json)
        → given "in" doc ≡ when b v
        → given "in_" doc ≡ none
        → given (in_key doc) doc ≡ when b v
    in_entry true v e other = rw e e
    in_entry false v e other = rw e other

    in_given :
        given (in_key doc) doc
        ≡ when (is_set k "in_") (write_nullable (λ vs. arr (of_items vs)) k.in_)
    in_given = in_entry (is_set k "in_") _ (at_key "in" _ refl) (given-entries "in_" (operators k))

    set-back : fields_set (operator_keys (in_key doc)) doc ≡ k.model_fields_set
    set-back =
        rw
          (
            in_given,
            at_key "equals" _ refl,
            at_key "min" _ refl,
            at_key "max" _ refl,
            at_key "min_length" _ refl,
            at_key "max_length" _ refl,
            at_key "min_items" _ refl,
            at_key "max_items" _ refl,
            at_key "pattern" _ refl,
          )
          (simp (is_some-when, h.in_order))

    constraint_from-back : constraint_from c doc ≡ some k
    unfolding constraint_from
    constraint_from-back =
        rw
          (
            field_back (is_set k "in_") none k.in_ (nullable (to_list some)) _ _ in_given
                (in-back k.in_) h.no_in,
            field_back (is_set k "equals") null k.equals (some) _ _ (at_key "equals" _ refl) (refl)
                h.no_equals,
            field_back (is_set k "min") none k.min (nullable c.to_float) _ _ (at_key "min" _ refl)
                (float-back k.min) h.no_min,
            field_back (is_set k "max") none k.max (nullable c.to_float) _ _ (at_key "max" _ refl)
                (float-back k.max) h.no_max,
            field_back (is_set k "min_length") none k.min_length (nullable c.to_int) _ _
                (at_key "min_length" _ refl) (int-back k.min_length) h.no_min_length,
            field_back (is_set k "max_length") none k.max_length (nullable c.to_int) _ _
                (at_key "max_length" _ refl) (int-back k.max_length) h.no_max_length,
            field_back (is_set k "min_items") none k.min_items (nullable c.to_int) _ _
                (at_key "min_items" _ refl) (int-back k.min_items) h.no_min_items,
            field_back (is_set k "max_items") none k.max_items (nullable c.to_int) _ _
                (at_key "max_items" _ refl) (int-back k.max_items) h.no_max_items,
            field_back (is_set k "pattern") none k.pattern (to_pattern c) _ _
                (at_key "pattern" _ refl) (pattern-back k.pattern h.compiles) h.no_pattern,
          )
          (rw set-back refl)

    in_known :
        (b : Bool)
        → is_set k "in_" ≡ b
        → all_named (seconds (operator_keys (in_key doc))) (operators k) ≡ true
    in_known true e = rw (at_key "in" _ refl, e) refl
    in_known false e = rw (at_key "in" _ refl, e) refl

  -- A constraint as the class makes it is what the class reads from its written form.
  pub constraint-back :
      (k : ArgumentConstraint) → IsWritable c k → to_constraint c (write_constraint k) ≡ some k
  unfolding to_constraint write_constraint
  constraint-back k h =
      rw (only-entries _ (operators k) (in_known k h (is_set k "in_") refl))
        (constraint_from-back k h)
