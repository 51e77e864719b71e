-- ===== src/Json.antt =====
-- `serde_json::Value`, as far as the program looks into it. A number is told by whether it is a `u64`;
-- any other number is kept by its text.
use gpui_agent.Base.Map.{str_lt}
use gpui_agent.Base.{ℕ, String, Bool, Option, none, some, ◌==◌, string_eq, if◌then◌else◌}

-- `Values` is `Vec<Value>`, `Fields` the entries of `Map<String, Value>`.
mutual
  pub data Value : Type 0 where
    null : Value
    bool : Bool → Value
    natural : ℕ → Value
    number : String → Value
    string : String → Value
    array : Values → Value
    object : Fields → Value

  pub data Values : Type 0 where
    nil : Values
    cons : Value → Values → Values

  pub data Fields : Type 0 where
    empty : Fields
    field : String → Value → Fields → Fields

unfoldable pub lookup : String → Fields → Option Value
lookup k empty = none
lookup k (field j v fs) = let rest = lookup k fs in if j == k then some v else rest

-- `Value::get` with a key
unfoldable pub get : String → Value → Option Value
unfolding lookup
get k (Value.object fs) = lookup k fs
get k _ = none

abbrev as_str : Option Value → Option String
as_str (some (Value.string s)) = some s
as_str _ = none

abbrev as_u64 : Option Value → Option ℕ
as_u64 (some (Value.natural n)) = some n
as_u64 _ = none

-- `value.get(key).and_then(|v| v.as_str())`
unfoldable pub get_str : String → Value → Option String
unfolding get
get_str k v = as_str (get k v)

-- `value.get(key).and_then(|v| v.as_u64())`
unfoldable pub get_u64 : String → Value → Option ℕ
unfolding get
get_u64 k v = as_u64 (get k v)

-- `Map::insert`: the entries are in key order.
unfoldable pub insert : String → Value → Fields → Fields
insert k v Fields.empty = Fields.field k v Fields.empty
insert k v (Fields.field j w fs) =
    let rest = Fields.field j w (insert k v fs) in
    if j == k
    then Fields.field k v fs
    else if str_lt k j
    then Fields.field k v (Fields.field j w fs)
    else rest
