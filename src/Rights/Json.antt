-- ===== src/Rights/Json.antt =====
-- JSON documents, and what the program uses of `json.Unmarshal` on them. A key is looked up as
-- it is written, and a document is taken to have no key twice. Reading the bytes is left out.
use canton_localnet.Base.{Text, Bool, Option, none, some, List, [], ◌∷◌, equal, if◌then◌else◌}

mutual
  pub data Value : Type 0 where
    null : Value
    bool : Bool → Value
    number : Text → Value
    string : Text → Value
    array : Items → Value
    object : Fields → Value

  pub data Items : Type 0 where
    end : Items
    item : Value → Items → Items

  pub data Fields : Type 0 where
    empty : Fields
    field : Text → Value → Fields → Fields

-- A missing key leaves a Go field as `null` does.
unfoldable pub lookup_field : Text → Fields → Value
lookup_field key empty = null
lookup_field key (field k v fs) = let rest = lookup_field key fs in if equal k key then v else rest

-- Into a struct: the value of one of its fields.
unfoldable pub get : Text → Value → Option Value
unfolding lookup_field
get key (object fs) = some (lookup_field key fs)
get key null = some null
get key _ = none

-- Into a `string`.
unfoldable pub as_string : Value → Option Text
as_string (string s) = some s
as_string null = some []
as_string _ = none

unfoldable pub entries : Fields → List (Text × Value)
entries empty = []
entries (field k v fs) = (k, v) ∷ entries fs

-- Into a `map[string]json.RawMessage`.
unfoldable pub as_map : Value → Option (List (Text × Value))
unfolding entries
as_map (object fs) = some (entries fs)
as_map null = some []
as_map _ = none

unfoldable pub items : Items → List Value
items end = []
items (item v vs) = v ∷ items vs

-- Into a slice.
unfoldable pub as_slice : Value → Option (List Value)
unfolding items
as_slice (array vs) = some (items vs)
as_slice null = some []
as_slice _ = none
