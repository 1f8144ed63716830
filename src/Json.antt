-- ===== src/Json.antt =====
-- The JSON values that arguments, policy constants and audit payloads hold, with Python's types for
-- them, and Python's `==` on them. An object is its entries in insertion order.
pub mod Dumps
use Prim.Native.String.{String}
use sentinel_mcp.Prelude.{
  Bool, true, false, ◌&&◌, Option, none, some, List, [], ◌∷◌, length, ◌==◌, str_eq,
}
use sentinel_mcp.Prelude.Int.{ℤ, pos}
use sentinel_mcp.Prelude.Dict.{Dict, get}
use sentinel_mcp.Float.{Float, float_eq, float_of_int}

mutual
  pub data Json : Type 0 where
    null : Json
    bool : Bool → Json
    int : ℤ → Json
    float : Float → Json
    str : String → Json
    arr : Items → Json
    obj : Fields → Json

  pub data Items : Type 0 where
    nil : Items
    item : Json → Items → Items

  pub data Fields : Type 0 where
    end : Fields
    field : String → Json → Fields → Fields

abbrev pub items : Items → List Json
items nil = []
items (item v vs) = v ∷ items vs

abbrev pub of_items : List Json → Items
of_items [] = nil
of_items (v ∷ vs) = item v (of_items vs)

abbrev pub fields : Fields → Dict Json
fields end = []
fields (field k v fs) = (k, v) ∷ fields fs

-- The value of what `==` compares as a number: a `bool` is an `int`.
abbrev pub numeric : Json → Option Float
numeric (bool false) = some (float_of_int (pos 0))
numeric (bool true) = some (float_of_int (pos 1))
numeric (int n) = some (float_of_int n)
numeric (float x) = some x
numeric _ = none

abbrev pub numeric_eq : Option Float → Option Float → Bool
numeric_eq (some x) (some y) = float_eq x y
numeric_eq _ _ = false

abbrev pub str_is : String → Json → Bool
str_is s (str t) = str_eq s t
str_is s _ = false

abbrev pub entry_eq : (Json → Bool) → Option Json → Bool
entry_eq eq none = false
entry_eq eq (some y) = eq y

-- Python's `a == b`.
unfoldable mutual
  pub py_eq : Json → Json → Bool
  py_eq null null = true
  py_eq (bool a) v = numeric_eq (numeric (bool a)) (numeric v)
  py_eq (int a) v = numeric_eq (numeric (int a)) (numeric v)
  py_eq (float a) v = numeric_eq (numeric (float a)) (numeric v)
  py_eq (str s) v = str_is s v
  py_eq (arr xs) (arr ys) = items_eq xs ys
  py_eq (obj xs) (obj ys) = length (fields xs) == length (fields ys) && fields_eq xs (fields ys)
  py_eq _ _ = false

  pub items_eq : Items → Items → Bool
  items_eq nil nil = true
  items_eq (item x xs) (item y ys) = py_eq x y && items_eq xs ys
  items_eq _ _ = false

  -- every entry on the left has an equal one on the right
  pub fields_eq : Fields → Dict Json → Bool
  fields_eq end ys = true
  fields_eq (field k x xs) ys = entry_eq (py_eq x) (get k ys) && fields_eq xs ys

-- `type(a)`
pub data Kind : Type 0 where
  none_type bool_type int_type float_type str_type list_type dict_type : Kind

abbrev pub kind : Json → Kind
kind null = none_type
kind (bool b) = bool_type
kind (int n) = int_type
kind (float x) = float_type
kind (str s) = str_type
kind (arr xs) = list_type
kind (obj fs) = dict_type

-- `type(a) is type(b)`
abbrev pub kind_eq : Kind → Kind → Bool
kind_eq none_type none_type = true
kind_eq bool_type bool_type = true
kind_eq int_type int_type = true
kind_eq float_type float_type = true
kind_eq str_type str_type = true
kind_eq list_type list_type = true
kind_eq dict_type dict_type = true
kind_eq _ _ = false
