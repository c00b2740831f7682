-- ===== src/Json.antt =====
-- `serde_json::Value`: the library's type, with the accessors that the program calls. Objects are
-- `Map<String, Value>`, a `BTreeMap` in this build, so their fields stand in key order. A number
-- is an integer or another number, which the program only compares and prints.
use Prim.Native.String.{compare}
use mcpway.Base.{
  ℕ, suc, String, Ordering, ◌≡◌, refl, Bool, Option, none, some, List, [], ◌∷◌, arith, ◌==◌, eq_iff,
  if◌then◌else◌, and_then,
}
use mcpway.Base.Dict.{compare_eq, compare_ne}
use mcpway.Base.Int.{ℤ, fits_i64}

mutual
  pub data Value : Type 0 where
    null : Value
    bool : Bool → Value
    int : ℤ → Value
    float : String → Value
    str : String → Value
    arr : Items → Value
    obj : Fields → Value

  pub data Fields : Type 0 where
    end : Fields
    field : String → Value → Fields → Fields

  pub data Items : Type 0 where
    no_items : Items
    item : Value → Items → Items

abbrev pub elems : Items → List Value
elems no_items = []
elems (item v vs) = v ∷ elems vs

-- `Map::get`
unfoldable pub get_field : String → Fields → Option Value
get_field k end = none
get_field k (field j v fs) = if j == k then some v else get_field k fs

-- `Map::insert`
unfoldable pub insert_field : String → Value → Fields → Fields
insert_field k v end = field k v end
insert_field k v (field j w fs) = elim (compare k j) [
  | Ordering.lt ↦ field k v (field j w fs)
  | Ordering.eq ↦ field k v fs
  | Ordering.gt ↦ field j w (insert_field k v fs)
]

abbrev pub count_fields : Fields → ℕ
count_fields end = 0
count_fields (field k v fs) = suc (count_fields fs)

abbrev pub as_object : Value → Option Fields
as_object (obj fs) = some fs
as_object _ = none

abbrev pub as_array : Value → Option Items
as_array (arr vs) = some vs
as_array _ = none

abbrev pub as_str : Value → Option String
as_str (str s) = some s
as_str _ = none

abbrev pub as_i64 : Value → Option ℤ
as_i64 (int n) = if fits_i64 n then some n else none
as_i64 _ = none

-- `Value::get` at a text key: a value that is no object has no field.
unfoldable pub get : String → Value → Option Value
unfolding get_field
get k v = and_then (as_object v) (get_field k)

pub get_field-insert_field :
    (k j : String) (v : Value) (fs : Fields)
    → get_field j (insert_field k v fs) ≡ (if k == j then some v else get_field j fs)
unfolding get_field insert_field
get_field-insert_field k j v end = refl
get_field-insert_field k j v (field i w fs) =
    ground (
      arith,
      eq_iff k j,
      eq_iff i j,
      compare_eq k i,
      compare_ne k i,
      get_field-insert_field k j v fs,
    )
