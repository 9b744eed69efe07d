-- ===== src/Value.antt =====
-- `serde_json::Value`, as the program reads and builds it. A number is of a type `N`, with the
-- operations of `Numbers N`; an object is its fields in the order in which it gives them.
use h_agent_core.Base.{
  ℕ, String, Bool, true, false, List, [], ◌∷◌, Option, none, some, str_eq, if◌then◌else◌, ◌>>=◌,
}

mutual
  pub data Value (N : Type 0) : Type 0 where
    null : Value N
    bool : Bool → Value N
    number : N → Value N
    string : String → Value N
    array : Items N → Value N
    object : Fields N → Value N

  pub data Items (N : Type 0) : Type 0 where
    end : Items N
    item : Value N → Items N → Items N

  pub data Fields (N : Type 0) : Type 0 where
    empty : Fields N
    field : String → Value N → Fields N → Fields N

-- What the program uses of `serde_json::Number`: `as_u64`; `as_i64` where it is not negative;
-- `as_f64` where it is whole, not negative and no more than `u64::MAX as f64`; and `From<u64>`.
pub record Numbers (N : Type 0) : Type 0 where
  pub as_u64 : N → Option ℕ
  pub as_i64_unsigned : N → Option ℕ
  pub as_f64_whole : N → Option ℕ
  pub of_u64 : ℕ → N

module _ {N : Type 0} where
  abbrev pub items_list : Items N → List (Value N)
  items_list end = []
  items_list (item v vs) = v ∷ items_list vs

  abbrev pub fields_list : Fields N → List (String × Value N)
  fields_list empty = []
  fields_list (field k v fs) = (k, v) ∷ fields_list fs

  abbrev pub of_list : List (Value N) → Items N
  of_list [] = end
  of_list (v ∷ vs) = item v (of_list vs)

  -- `json!({…})`.
  abbrev pub obj : List (String × Value N) → Fields N
  obj [] = empty
  obj ((k, v) ∷ fs) = field k v (obj fs)

  abbrev pub field_of : String → Fields N → Option (Value N)
  field_of key empty = none
  field_of key (field k v fs) = if str_eq k key then some v else field_of key fs

  abbrev pub get : Value N → String → Option (Value N)
  get (object fs) key = field_of key fs
  get _ key = none

  abbrev pub as_str : Value N → Option String
  as_str (string s) = some s
  as_str _ = none

  abbrev pub as_array : Value N → Option (List (Value N))
  as_array (array vs) = some (items_list vs)
  as_array _ = none

  abbrev pub as_object : Value N → Option (List (String × Value N))
  as_object (object fs) = some (fields_list fs)
  as_object _ = none

  abbrev pub is_null : Value N → Bool
  is_null null = true
  is_null _ = false

  abbrev pub get_str : Value N → String → Option String
  get_str v key = get v key >>= as_str

  -- `get(key).and_then(Value::as_array).into_iter().flatten()`.
  abbrev pub get_list : Value N → String → List (Value N)
  get_list v key = elim (get v key >>= as_array) [ none ↦ [] | some vs ↦ vs ]

module _ {N : Type 0} ⦃n : Numbers N⦄ where
  abbrev pub as_u64 : Value N → Option ℕ
  as_u64 (number x) = n.as_u64 x
  as_u64 _ = none
