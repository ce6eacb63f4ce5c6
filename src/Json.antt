-- ===== src/Json.antt =====
-- JSON values, as the sources take them apart: the constructors of `serde_json::Value`, an object
-- as its entries in iteration order, and the accessors that the sources call.
use anchor_rs.Prelude.{
  ℕ, ℤ, Bool, true, false, Option, none, some, Text, List, [], ◌∷◌, String, codes, text_eq,
  if◌then◌else◌, get_elem?,
}

-- What `as_i64`, `as_u64` and `as_f64` answer for a number; of a float, whether it is finite.
pub record Number : Type 0 where
  pub as_i64 : Option ℤ
  pub as_u64 : Option ℕ
  pub as_f64_finite : Option Bool

mutual
  pub data Value : Type 0 where
    null : Value
    bool : Bool → Value
    number : Number → Value
    string : Text → Value
    array : Items → Value
    object : Fields → Value

  pub data Items : Type 0 where
    nil : Items
    cons : Value → Items → Items

  pub data Fields : Type 0 where
    end : Fields
    field : Text → Value → Fields → Fields

abbrev pub items : Items → List Value
items nil = []
items (cons v vs) = v ∷ items vs

abbrev pub fields : Fields → List (Text × Value)
fields end = []
fields (field k v fs) = (k, v) ∷ fields fs

-- `Map::get`
unfoldable pub lookup : Text → Fields → Option Value
lookup key end = none
lookup key (field k v fs) = if text_eq k key then some v else lookup key fs

-- `Value::get` at a key.
unfoldable pub get_key : Text → Value → Option Value
unfolding lookup
get_key key (object fs) = lookup key fs
get_key key null = none
get_key key _ = none

-- `Value::get` at the key that a literal names.
abbrev pub get : String → Value → Option Value
get key v = get_key (codes key) v

-- `Value::get` at an index.
unfoldable pub get_index : ℕ → Value → Option Value
get_index i (array vs) = get_elem? (items vs) i
get_index i null = none
get_index i _ = none

abbrev pub as_str : Value → Option Text
as_str (string s) = some s
as_str null = none
as_str _ = none

abbrev pub as_array : Value → Option (List Value)
as_array (array vs) = some (items vs)
as_array null = none
as_array _ = none

abbrev pub as_object : Value → Option Fields
as_object (object fs) = some fs
as_object null = none
as_object _ = none

abbrev pub as_u64 : Value → Option ℕ
as_u64 (number n) = n.as_u64
as_u64 null = none
as_u64 _ = none

abbrev pub is_null : Value → Bool
is_null null = true
is_null _ = false
