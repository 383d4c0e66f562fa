-- ===== src/Value.antt =====
-- The dynamic values (`any`) that travel between JSON tokens, GraphQL inputs and SQL arguments.
-- A `map[string]any` is the list of its entries, in any order; a float64 or float32 is its bit pattern.
use titanium_graph_api.Base.{ℕ, List, [], ◌∷◌, Text, Bool, true, false, Option, none, some}
use titanium_graph_api.Base.Int.{ℤ}

mutual
  pub data Value : Type 0 where
    null : Value
    bool : Bool → Value
    int : ℤ → Value
    int64 : ℤ → Value
    uint64 : ℕ → Value
    float : ℕ → Value
    float32 : ℕ → Value
    str : Text → Value
    bytes : List ℕ → Value
    time : ℕ → Value
    arr : Values → Value
    obj : Fields → Value

  pub data Values : Type 0 where
    nil : Values
    cons : Value → Values → Values

  pub data Fields : Type 0 where
    end : Fields
    field : Text → Value → Fields → Fields

abbrev pub elems : Values → List Value
elems nil = []
elems (cons v vs) = v ∷ elems vs

abbrev pub entries : Fields → List (Text × Value)
entries end = []
entries (field k v fs) = (k, v) ∷ entries fs

abbrev pub is_null : Value → Bool
is_null null = true
is_null _ = false

abbrev pub as_obj : Value → Option Fields
as_obj (obj fs) = some fs
as_obj _ = none

abbrev pub as_arr : Value → Option Values
as_arr (arr vs) = some vs
as_arr _ = none

abbrev pub as_str : Value → Option Text
as_str (str s) = some s
as_str _ = none

abbrev pub as_bool : Value → Option Bool
as_bool (bool b) = some b
as_bool _ = none

abbrev pub as_int : Value → Option ℤ
as_int (int n) = some n
as_int _ = none
